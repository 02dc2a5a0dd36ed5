-- ===== src/Keys/CleanTests.antt =====
-- Runs of `clean` on paths whose answers the Go documentation gives.
use solid_ts_facts.Prelude.{◌≡◌, refl, [], ◌∷◌}
use solid_ts_facts.Keys.{GoString, str_eq}
use solid_ts_facts.Keys.Clean.{clean}
use Prim.Native.String.{String}
use Prim.Native.Char.{code}

abbrev bytes : String → GoString
bytes String.[] = []
bytes (String.◌∷◌ c s) = code c ∷ bytes s

clean_empty : clean [] ≡ bytes "."
unfolding clean str_eq
clean_empty = refl

clean_up : clean (bytes "/a/./b//../c/") ≡ bytes "/a/c"
unfolding clean str_eq
clean_up = refl

clean_above : clean (bytes "../a/../../b") ≡ bytes "../../b"
unfolding clean str_eq
clean_above = refl

clean_root : clean (bytes "/..") ≡ bytes "/"
unfolding clean str_eq
clean_root = refl
