-- ===== src/Daemon/Files.antt =====
-- Paths and the file operations that src/daemon.rs and src/nushell.rs call: a file system maps a path
-- to the contents of the file that stands there.
use direnv_instant.Prelude.{
  ℕ, zero, suc, Text, text_eq, text_eq_refl, text_eq_iff, Bool, true, false, Option, none, some, [],
  ◌∷◌, ◌++◌, ◌≡◌, ◌≢◌, arith, ◌==◌, if◌then◌else◌, ◌+◌, ◌/◌, ◌%◌, ltb,
}

abbrev pub Fs : Type 0
Fs = Text → Option Text

-- The file system in which `path` holds `file`.
unfoldable pub put : Text → Option Text → Fs → Fs
put path file fs p = if text_eq path p then file else fs p

-- `File::create`, where it succeeds: the file is there, and empty.
unfoldable pub create : Text → Fs → Fs
create path fs = put path (some []) fs

-- `let _ = remove_file(path)`
unfoldable pub remove_file : Text → Fs → Fs
remove_file path fs = put path none fs

-- `let _ = std::fs::rename(from, to)`; `ok` says whether the call succeeds where `from` is there.
unfoldable pub rename : Bool → Text → Text → Fs → Fs
unfolding put
rename ok from to fs = elim (fs from) [
  | none ↦ fs
  | some contents ↦ if ok then put to (some contents) (put from none fs) else fs
]

-- `path.metadata().map(|m| m.len() > 0).unwrap_or(false)`
abbrev is_nonempty : Option Text → Bool
is_nonempty none = false
is_nonempty (some []) = false
is_nonempty (some (c ∷ s)) = true

abbrev pub has_content : Text → Fs → Bool
has_content path fs = is_nonempty (fs path)

pub put_self : (path : Text) (file : Option Text) (fs : Fs) → put path file fs path ≡ file
unfolding put
put_self path file fs = rw (text_eq_refl path)

pub put_other :
    (path q : Text) (file : Option Text) (fs : Fs) → path ≢ q → put path file fs q ≡ fs q
unfolding put
put_other path q file fs h = ground (arith, text_eq_iff path q)

-- `Path::join`: an absolute path replaces the first, and a separator is put between the two unless
-- the first is empty or ends in one.
abbrev pub ends_in_separator : Text → Bool
ends_in_separator [] = true
ends_in_separator (c ∷ []) = c == b'/'
ends_in_separator (c ∷ d ∷ s) = ends_in_separator (d ∷ s)

abbrev pub is_absolute : Text → Bool
is_absolute [] = false
is_absolute (c ∷ s) = c == b'/'

unfoldable pub join : Text → Text → Text
join p q = if is_absolute q then q else if ends_in_separator p then p ++ q else p ++ b'/' ∷ q

abbrev pub hex_digit : ℕ → ℕ
hex_digit d = if ltb d 10 then b'0' + d else d + 87

-- `format!("{:x}", n)`: the fuel is more than `n`, and each round divides by sixteen.
hex_digits : ℕ → ℕ → Text → Text
hex_digits zero n out = out
hex_digits (suc f) n out =
    let first = hex_digit (n % 16) ∷ out in
    let rest = hex_digits f (n / 16) (hex_digit (n % 16) ∷ out) in if ltb n 16 then first else rest

unfoldable pub hex : ℕ → Text
unfolding hex_digits
hex n = hex_digits (suc n) n []
