-- ===== src/Klib/CString.antt =====
-- klib/cstring.cpp: a pointer to a string is the list of its bytes before the byte 0 that ends it; none of
-- them is 0. A pointer into the string is a tail of the list. `strdup` only adds an allocation to a copy.
pub mod Compare
use saba_os.Base.{
  ℕ, zero, suc, ◌+◌, ◌-◌, Bool, true, false, ◌&&◌, if◌then◌else◌, ◌==◌, List, [], ◌∷◌, ◌++◌, Option,
  none, some, length, take, replicate,
}

pub strlen : List ℕ → ℕ
strlen [] = 0
strlen (c ∷ cs) = 1 + strlen cs

pub strnlen : List ℕ → ℕ → ℕ
strnlen s zero = 0
strnlen [] (suc maxlen) = 0
strnlen (c ∷ cs) (suc maxlen) = 1 + strnlen cs maxlen

-- The bytes at `dst` after the call, the ending 0 included.
pub strcpy : List ℕ → List ℕ
strcpy src = src ++ (0 ∷ [])

-- The `n` bytes at `dst` after the call.
pub strncpy : List ℕ → ℕ → List ℕ
strncpy src zero = []
strncpy [] (suc n) = 0 ∷ strncpy [] n
strncpy (c ∷ cs) (suc n) = c ∷ strncpy cs n

pub strcat : List ℕ → List ℕ → List ℕ
strcat dst src = dst ++ strcpy src

-- The two bytes whose difference is returned.
unfoldable pub strcmp : List ℕ → List ℕ → ℕ × ℕ
strcmp [] [] = (0, 0)
strcmp [] (d ∷ ds) = (0, d)
strcmp (c ∷ cs) [] = (c, 0)
strcmp (c ∷ cs) (d ∷ ds) = let rest = strcmp cs ds in if c == d then rest else (c, d)

pub strncmp : List ℕ → List ℕ → ℕ → ℕ × ℕ
strncmp lhs rhs zero = (0, 0)
strncmp [] [] (suc count) = (0, 0)
strncmp [] (d ∷ ds) (suc count) = (0, d)
strncmp (c ∷ cs) [] (suc count) = (c, 0)
strncmp (c ∷ cs) (d ∷ ds) (suc count) =
    let rest = strncmp cs ds count in if c == d then rest else (c, d)

-- The tail that begins with `c`; the end is found as the byte 0.
unfoldable pub strchr : List ℕ → ℕ → Option (List ℕ)
strchr [] c = if 0 == c then some [] else none
strchr (x ∷ xs) c = let rest = strchr xs c in if x == c then some (x ∷ xs) else rest

-- `memcmp(str, substr, n) == 0` with the length of `substr`. It looks at most at the byte 0 that ends
-- `str`, where it differs.
pub memcmp_prefix : List ℕ → List ℕ → Bool
memcmp_prefix s [] = true
memcmp_prefix [] (d ∷ ds) = false
memcmp_prefix (c ∷ cs) (d ∷ ds) = (c == d) && memcmp_prefix cs ds

-- The tail that begins with `substr`; an empty `str` has none, not even of an empty `substr`.
pub strstr : List ℕ → List ℕ → Option (List ℕ)
strstr [] substr = none
strstr (c ∷ cs) substr =
    let rest = strstr cs substr in if memcmp_prefix (c ∷ cs) substr then some (c ∷ cs) else rest
