-- ===== src/Cache/Tests.antt =====
-- Two calls whose parts interleave.
use gateway_glc_v.Common.{ℕ, ◌+◌, ◌*◌, ◌<◌, ◌≡◌, refl, List, [], ◌∷◌, Option, none, some, sec}
use gateway_glc_v.Common.Text.{Text, codes}
use gateway_glc_v.Cache.{Response, look, keep_minted, get_or_create}
use gateway_glc_v.Cache.Fresh.{Step, looks, keeps, after, step, Minted, look_fresh}

abbrev created : Text → Option Response
created name = some (record { status_code = 200; name = some name; total_token_count = none })

-- Both calls miss, and the later one's name stays.
abbrev parts : List Step
parts =
    keeps (codes "k") (2 * sec) (codes "text") (created (codes "b"))
    ∷ keeps (codes "k") sec (codes "text") (created (codes "a"))
    ∷ looks (codes "k") (2 * sec)
    ∷ looks (codes "k") sec
    ∷ []

later_found : (look (after 300 parts) (codes "k") (296 * sec)).1 ≡ some (codes "b")
unfolding look step keep_minted
later_found = refl

look_fresh_example :
    (at : ℕ) × Minted parts (codes "k") (codes "b") at × (296 * sec + 5 * sec < at + 300 * sec)
look_fresh_example = look_fresh 300 parts (codes "k") (codes "b") (296 * sec) later_found

tokens_estimated :
    (get_or_create (λ s. s) 300 [] (codes "m") (codes "12345678") sec (created (codes "a"))).1
    ≡ (some (codes "a"), 2)
unfolding get_or_create look keep_minted
tokens_estimated = refl
