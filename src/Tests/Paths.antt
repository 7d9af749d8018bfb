-- ===== src/Tests/Paths.antt =====
-- The path of a URL, for a concrete client.
use Prim.Native.String.{String, [], ◌∷◌, ◌++◌}
use mathlib.Core.Path.{◌≡◌}
use text.Mathlib.TextLemmas.{nil-append, cons-append}

-- What follows a prefix
after : String → String → String
after [] t = t
after (c ∷ s) [] = []
after (c ∷ s) (d ∷ t) = after s t

after-append : (s t : String) → after s (◌++◌ s t) ≡ t
unfolding after
after-append [] t = nil-append t
after-append (c ∷ s) t = rw (cons-append c s t) (after-append s t)

-- The path of a URL of the host "api"
pub path_of : String → String
path_of url = after "api" (after "http://" url)

pub path_of_lem : (path : String) → path_of (◌++◌ "http://" (◌++◌ "api" path)) ≡ path
unfolding path_of
path_of_lem path = rw (after-append "http://" (◌++◌ "api" path)) (after-append "api" path)
