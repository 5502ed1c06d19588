-- ===== src/Prometheus/Emits.antt =====
-- What it means that an action of the Prometheus formatter writes samples, and how actions combine.
use thermal_observatory.Base.{
  true, false, ◌≡◌, refl, sym, List, [], ◌∷◌, ◌++◌, append-nil, append_assoc, Bytes, inl, inr,
  Bool-cases, ltb, length,
}
use thermal_observatory.Double.{Double}
use thermal_observatory.Platform.Paths.{snprintf}
use thermal_observatory.Prometheus.{append_metric}
use thermal_observatory.Prometheus.Samples.{Sample, label_text, sample_line, exposition, concat_map}
use thermal_observatory.Writer.{Action, Text, text_sink, ◌⨾◌, done, for_each}

module _ {ℓ} {D : Type ℓ} ⦃d : Double D⦄ where
  exposition-append :
      (xs ys : List (Sample D)) → exposition (xs ++ ys) ≡ exposition xs ++ exposition ys
  unfolding exposition
  exposition-append [] ys = refl
  exposition-append (x ∷ xs) ys =
      rw (exposition-append xs ys)
        (sym (append_assoc (sample_line x) (exposition xs) (exposition ys)))

  -- The action returns 0 and writes the lines of `samples`.
  pub record Emits (p : Action Text) (samples : List (Sample D)) : Type ℓ where
    pub writes : (t : Text) → p t ≡ (true, λ rest. t (exposition samples ++ rest))

  append_metric-line :
      (name : Bytes) (labels : List (Bytes × Bytes)) (value : D) (t : Text)
      → append_metric name (snprintf 512 (label_text false labels)) value t ≡ (
        true,
        λ rest. t (sample_line (record { metric = name; labels = labels; value = value }) ++ rest),
      )
  unfolding append_metric sample_line
  append_metric-line name labels value t =
      elim (Bool-cases (ltb 0 (length (snprintf 512 (label_text false labels))))) [
        | inl e ↦ rw e (simp append_assoc)
        | inr e ↦ rw e (simp append_assoc)
      ]

  pub Emits-append_metric :
      (name : Bytes) (labels : List (Bytes × Bytes)) (value : D)
      → Emits
          (append_metric name (snprintf 512 (label_text false labels)) value)
          (record { metric = name; labels = labels; value = value } ∷ [])
  unfolding exposition
  Emits-append_metric name labels value = record {
    writes = λ t. simp (append_metric-line name labels value, append-nil);
  }

  pub Emits-cons :
      {q : Action Text} {samples : List (Sample D)} (name : Bytes) (labels : List (Bytes × Bytes))
      (value : D)
      → Emits q samples
      → Emits
          (append_metric name (snprintf 512 (label_text false labels)) value ⨾ q)
          (record { metric = name; labels = labels; value = value } ∷ samples)
  unfolding exposition ◌⨾◌
  Emits-cons name labels value h = record {
    writes = λ t. simp (append_metric-line name labels value, h.writes, append_assoc);
  }

  pub Emits-seq :
      {p q : Action Text} {xs ys : List (Sample D)}
      → Emits p xs
      → Emits q ys
      → Emits (p ⨾ q) (xs ++ ys)
  unfolding ◌⨾◌
  Emits-seq {xs = xs} {ys = ys} h k = record {
    writes = λ t. rw (h.writes t) (simp (k.writes, exposition-append, append_assoc));
  }

  pub Emits-for_each {κ} :
      {A : Type κ} {f : A → Action Text} {g : A → List (Sample D)}
      → ((x : A) → Emits (f x) (g x))
      → (xs : List A) → Emits (for_each f xs) (concat_map g xs)
  unfolding for_each
  Emits-for_each each [] = record { writes = λ t. unfold done exposition in refl }
  Emits-for_each each (x ∷ xs) = Emits-seq (each x) (Emits-for_each each xs)
