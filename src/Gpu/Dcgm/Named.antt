-- ===== src/Gpu/Dcgm/Named.antt =====
-- When `tm_collect_nvidia_dcgm` sets its bit, in terms of the text of `dcgmi`.
use thermal_observatory.Base.{
  true, ◌&&◌, ◌≡◌, sym, ap, ◌∙◌, ◌↔◌, ◌⊎◌, inl, inr, Option, none, some, some-injective, List, [],
  ◌∷◌, ◌++◌, ◌==◌, ==_iff, or_iff, and_iff, ◌>>=◌, >>=-eq-some, Bytes, codes, Any, Any-iff,
  Bool-cases, arith,
}
use thermal_observatory.Base.Int.{ℤ, pos, negsuc, pos_part, neg_part}
use thermal_observatory.Gpu.Dcgm.{scan_gpu_index, equal_ℤ, has_index, tm_collect_nvidia_dcgm}
use thermal_observatory.Gpu.Dcgm.Marks.{names_gpu, any_line, tm_collect_nvidia_dcgm-has}
use thermal_observatory.Libc.Lines.{lines}
use thermal_observatory.Libc.Scan.{strip_prefix, scan_long, to_int, take_until}
use thermal_observatory.Platform.{Host}
use thermal_observatory.Platform.Ipmi.{command_exists}
use thermal_observatory.Snapshot.{NvidiaGpu, Snapshot}
use thermal_observatory.Snapshot.Capability.{Capability, has, place, nvidia_dcgm}
use thermal_observatory.Snapshot.Capability.Apart.{place_iff}

-- A line names a number: up to its NUL it is "GPU" and a text that "%d" reads as the number.
abbrev pub Names : Bytes → ℤ → Type 0
Names line k =
    (rest : Bytes) × (take_until 0 line ≡ codes "GPU" ++ rest)
    × ((scan_long rest >>= λ n. some (to_int n)) ≡ some k)

-- Some line of the output names the index of some GPU of the list.
abbrev pub NamesSome {ℓ} : {D : Type ℓ} → List Bytes → List (NvidiaGpu D) → Type 0
NamesSome output gpus = Any (λ line. Any (λ gpu. Names line gpu.gpu_index) gpus) output

-- How equivalences are put together.
then_iff : {A B C : Type 0} → A ↔ B → B ↔ C → A ↔ C
then_iff f g = (λ a. g.0 (f.0 a), λ c. f.1 (g.1 c))

module _ {A B C D : Type 0} where
  either_iff : A ↔ B → C ↔ D → (A ⊎ C) ↔ (B ⊎ D)
  either_iff f g = (
    (λ h. elim h [ inl a ↦ inl (f.0 a) | inr c ↦ inr (g.0 c) ]),
    (λ h. elim h [ inl b ↦ inl (f.1 b) | inr d ↦ inr (g.1 d) ]),
  )

  both_iff : A ↔ B → C ↔ D → (A × C) ↔ (B × D)
  both_iff f g = (λ h. (f.0 h.0, g.0 h.1), λ h. (f.1 h.0, g.1 h.1))

strip_prefix_iff : (p s rest : Bytes) → (strip_prefix p s ≡ some rest) ↔ (s ≡ p ++ rest)
unfolding strip_prefix
strip_prefix_iff [] s rest = (λ h. some-injective _ _ h, λ h. ap some h)
strip_prefix_iff (a ∷ p) [] rest = (λ h. cc, λ h. cc)
strip_prefix_iff (a ∷ p) (c ∷ s) rest = (
  (λ h. elim (Bool-cases (a == c)) [
    | inl same ↦
        let tails = (strip_prefix_iff p s rest).0 (rw same at h) in
        let heads = (==_iff a c).0 same in cc
    | inr other ↦ let failed : none ≡ some rest = rw other at h in cc
  ]),
  (λ h.
      let heads : c ≡ a = cc in
      let tails : s ≡ p ++ rest = cc in
      rw ((==_iff a c).1 (sym heads)) ((strip_prefix_iff p s rest).1 tails)),
)

scan_gpu_index_iff : (line : Bytes) (k : ℤ) → (scan_gpu_index line ≡ some k) ↔ Names line k
unfolding scan_gpu_index
scan_gpu_index_iff line k = (
  (λ h.
      let (rest, stripped, e) = >>=-eq-some (strip_prefix (codes "GPU") (take_until 0 line)) _ h in
      (rest, (strip_prefix_iff (codes "GPU") (take_until 0 line) rest).0 stripped, e)),
  (λ named.
      let (rest, split, e) = named in
      rw ((strip_prefix_iff (codes "GPU") (take_until 0 line) rest).1 split) e),
)

parts-injective : (a b : ℤ) → pos_part a ≡ pos_part b → neg_part a ≡ neg_part b → a ≡ b
parts-injective (pos a) (pos b) p n = ap pos p
parts-injective (pos a) (negsuc b) p n = absurd (omega arith)
parts-injective (negsuc a) (pos b) p n = absurd (omega arith)
parts-injective (negsuc a) (negsuc b) p n = ap negsuc (omega arith)

equal_ℤ_iff : (a b : ℤ) → (equal_ℤ a b ≡ true) ↔ (a ≡ b)
equal_ℤ_iff a b = (
  (λ h.
      let (p, n) = (and_iff (pos_part a == pos_part b) (neg_part a == neg_part b)).0 h in
      parts-injective a b ((==_iff _ _).0 p) ((==_iff _ _).0 n)),
  (λ same.
      (and_iff (pos_part a == pos_part b) (neg_part a == neg_part b)).1
        ((==_iff _ _).1 (ap pos_part same), (==_iff _ _).1 (ap neg_part same))),
)

module _ {ℓ} {D : Type ℓ} where
  has_index_iff :
      (k : ℤ) (gpus : List (NvidiaGpu D))
      → (has_index k gpus ≡ true) ↔ Any (λ gpu. gpu.gpu_index ≡ k) gpus
  unfolding has_index
  has_index_iff k [] = (λ h. cc, λ h. absurd h)
  has_index_iff k (gpu ∷ gpus) = (
    (λ h. elim ((or_iff (equal_ℤ gpu.gpu_index k) (has_index k gpus)).0 h) [
      | inl here ↦ inl ((equal_ℤ_iff gpu.gpu_index k).0 here)
      | inr there ↦ inr ((has_index_iff k gpus).0 there)
    ]),
    (λ h. (or_iff (equal_ℤ gpu.gpu_index k) (has_index k gpus)).1 (elim h [
      | inl here ↦ inl ((equal_ℤ_iff gpu.gpu_index k).1 here)
      | inr there ↦ inr ((has_index_iff k gpus).1 there)
    ])),
  )

  no_gpu : (gpus : List (NvidiaGpu D)) → ¬ Any (λ gpu. none ≡ some gpu.gpu_index) gpus
  no_gpu [] h = h
  no_gpu (gpu ∷ gpus) (inl here) = cc
  no_gpu (gpu ∷ gpus) (inr there) = no_gpu gpus there

  names_gpu_iff :
      (gpus : List (NvidiaGpu D)) (found : Option ℤ)
      → (names_gpu gpus found ≡ true) ↔ Any (λ gpu. found ≡ some gpu.gpu_index) gpus
  names_gpu_iff gpus none = (λ h. cc, λ h. absurd (no_gpu gpus h))
  names_gpu_iff gpus (some k) = then_iff (has_index_iff k gpus) (
      Any-iff _ _ gpus (λ gpu. (λ h. ap some (sym h), λ h. sym (some-injective k gpu.gpu_index h))))

  any_line_iff :
      (gpus : List (NvidiaGpu D)) (output : List Bytes)
      → (any_line gpus output ≡ true) ↔ NamesSome output gpus
  any_line_iff gpus [] = (λ h. cc, λ h. absurd h)
  any_line_iff gpus (line ∷ rest) =
      then_iff (or_iff (names_gpu gpus (scan_gpu_index line)) (any_line gpus rest)) (
        either_iff
          (then_iff (names_gpu_iff gpus (scan_gpu_index line))
            (Any-iff _ _ gpus (λ gpu. scan_gpu_index_iff line gpu.gpu_index)))
          (any_line_iff gpus rest))

  -- Where `dcgmi` is there and its output can be read: a capability is set behind the collector
  -- exactly if it was set before, or it is the one of DCGM and a line of the output, in pieces of at
  -- most 511 bytes, begins with "GPU" and the index of some GPU of the snapshot.
  pub tm_collect_nvidia_dcgm-NamesSome :
      (host : Host) (output : Bytes) (s : Snapshot D) (e : Capability)
      → command_exists host (codes "dcgmi") ≡ true
      → host.popen (codes "dcgmi discovery -l 2>/dev/null") ≡ some output
      → (has (tm_collect_nvidia_dcgm host s).capabilities e ≡ true) ↔ (
          (has s.capabilities e ≡ true)
          ⊎ (NamesSome (lines 512 output) s.nvidia_gpus × (nvidia_dcgm ≡ e)))
  tm_collect_nvidia_dcgm-NamesSome host output s e found opened =
      let bits = tm_collect_nvidia_dcgm-has host output s e found opened in
      let named = any_line s.nvidia_gpus (lines 512 output) in
      then_iff (λ h. sym bits ∙ h, λ h. bits ∙ h)
        (then_iff (or_iff (has s.capabilities e) (named && place nvidia_dcgm == place e)) (
          either_iff (λ h. h, λ h. h)
            (then_iff (and_iff named (place nvidia_dcgm == place e)) (
              both_iff (any_line_iff s.nvidia_gpus (lines 512 output)) (place_iff nvidia_dcgm e)))))
