-- ===== src/Platform/Paths.antt =====
-- src/platform/linux_paths.c. A buffer of `len` bytes that snprintf fills holds the first `len - 1`
-- bytes of the text.
use thermal_observatory.Base.{
  ℕ, ◌+◌, ◌-◌, ◌<◌, Option, none, some, ◌≡◌, refl, [], ◌∷◌, ◌++◌, arith, ltb, if◌then◌else◌, Bytes,
  codes, Bool-cases, inl, inr, length-zero, length, length-append, take, take_self,
}
use thermal_observatory.Libc.Scan.{strip_prefix, split_first}
use thermal_observatory.Platform.{Host}

-- The text that `snprintf(buf, len, …)` leaves in the buffer.
abbrev pub snprintf : ℕ → Bytes → Bytes
snprintf len text = take (len - 1) text

abbrev or_empty : Option Bytes → Bytes
or_empty none = []
or_empty (some value) = value

module _ (host : Host) where
  -- An unset variable and an empty one both give "".
  unfoldable pub tm_sysroot : Bytes
  tm_sysroot = or_empty (host.getenv (codes "TM_SYSROOT"))

  unfoldable pub tm_path_join : ℕ → Bytes → Bytes
  tm_path_join len suffix = snprintf len (tm_sysroot ++ suffix)

  unfoldable pub tm_glob_join : ℕ → Bytes → Bytes
  unfolding tm_path_join
  tm_glob_join len suffix = tm_path_join len suffix

  abbrev past_root : Bytes → Option Bytes → Bytes
  past_root path none = path
  past_root path (some rest) = rest

  -- The test `root_len > 0` changes nothing: stripping "" is the identity.
  unfoldable pub tm_strip_sysroot_path : Bytes → ℕ → Bytes
  tm_strip_sysroot_path path len =
      if ltb 0 (length tm_sysroot)
      then snprintf len (past_root path (strip_prefix tm_sysroot path))
      else snprintf len path

-- `strncpy(buf, path, len - 1)` into an array that was never written: the text is the path if a NUL
-- was copied with it, and else reading the array is undefined.
unfoldable pub copy_path : ℕ → Bytes → Option Bytes
copy_path len path = if ltb (length path) (len - 1) then some path else none

-- `strcpy(strstr(path, old), new)`: the first `old` and all behind it give way to `new`. Where there
-- is no `old` the code writes through a null pointer.
unfoldable pub retarget : Bytes → Bytes → Bytes → Option Bytes
retarget old new path = elim (split_first old path) [
  | none ↦ none
  | some (front, _) ↦ some (front ++ new)
]

strip_prefix-append : (p s : Bytes) → strip_prefix p (p ++ s) ≡ some s
unfolding strip_prefix
strip_prefix-append [] s = refl
strip_prefix-append (c ∷ p) s = ground (arith, strip_prefix-append p s)

-- Where both buffers have room for what is put in them and a NUL: `tm_strip_sysroot_path` takes off
-- what `tm_path_join` put in front.
pub tm_strip_sysroot_path-tm_path_join :
    (host : Host) (suffix : Bytes) (len len' : ℕ)
    → length (tm_sysroot host) + length suffix < len
    → length suffix < len'
    → tm_strip_sysroot_path host (tm_path_join host len suffix) len' ≡ suffix
unfolding tm_strip_sysroot_path tm_path_join
tm_strip_sysroot_path-tm_path_join host suffix len len' h h' =
    rw
      (take_self (len - 1) (tm_sysroot host ++ suffix)
        (omega (arith, length-append (tm_sysroot host) suffix)))
      (elim (Bool-cases (ltb 0 (length (tm_sysroot host)))) [
        | inl rooted ↦
            rw rooted (rw strip_prefix-append (take_self (len' - 1) suffix (omega arith)))
        | inr bare ↦
            let no_root : tm_sysroot host ≡ [] = length-zero (tm_sysroot host) (ground arith) in
            rw bare (rw no_root (take_self (len' - 1) suffix (omega arith)))
      ])
