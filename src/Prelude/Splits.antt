-- ===== src/Prelude/Splits.antt =====
-- strings.Split by one character: what the pieces say of the text.
use Prim.Native.Nat.{compare, Ordering}
use Prim.Native.Char.{Char, code}
use mathlib.Core.List.{head-eq_of_cons-eq, tail-eq_of_cons-eq}
use text.Mathlib.TextLemmas.{nil-append, cons-append}
use text.Mathlib.TextEquality.{codes_equal}
use cluster_api_agent.Prelude.{
  ℕ, String, true, false, ◌<>◌, ◌≡◌, refl, sym, ap, ◌∙◌, inl, inr, List, [], ◌∷◌, arith, nat_eq,
  split, join, Bool-cases,
}

-- No character of the text has the code of the separator.
abbrev pub Lacks : ℕ → String → Type 0
Lacks sep String.[] = Unit
Lacks sep (String.◌∷◌ c s) = (nat_eq (code c) sep ≡ false) × Lacks sep s

split-cons : (sep : ℕ) (s : String) → (t : String) × (ts : List String) × (split sep s ≡ t ∷ ts)
unfolding split
split-cons sep String.[] = ("", [], refl)
split-cons sep (String.◌∷◌ c s) =
    let (t, ts, h) = split-cons sep s in
    elim (Bool-cases (nat_eq (code c) sep)) [
      | inl there ↦ ("", split sep s, rw there refl)
      | inr other ↦ (String.◌∷◌ c t, ts, rw (other, h) refl)
    ]

-- A text without the separator is one piece.
pub split-lacking : (sep : ℕ) (s : String) → Lacks sep s → split sep s ≡ s ∷ []
unfolding split
split-lacking sep String.[] h = refl
split-lacking sep (String.◌∷◌ c s) h = rw (h.0, split-lacking sep s h.1) refl

-- A text without the separator is the first piece where the separator follows it.
pub split-append :
    (d : Char) (s t : String)
    → Lacks (code d) s
    → split (code d) (s <> String.◌∷◌ d t) ≡ s ∷ split (code d) t
unfolding split
split-append d String.[] t h = rw nil-append (ground arith)
split-append d (String.◌∷◌ c s) t h = rw (cons-append, h.0, split-append d s t h.1) refl

same_code : (m n : ℕ) → nat_eq m n ≡ true → compare m n ≡ Ordering.eq
same_code m n h = ground arith

-- The pieces of a text, by its first character.
split-separator :
    (sep : ℕ) (c : Char) (s : String)
    → nat_eq (code c) sep ≡ true
    → split sep (String.◌∷◌ c s) ≡ "" ∷ split sep s
unfolding split
split-separator sep c s there = rw there refl

split-other :
    (sep : ℕ) (c : Char) (s t : String) (ts : List String)
    → nat_eq (code c) sep ≡ false
    → split sep s ≡ t ∷ ts
    → split sep (String.◌∷◌ c s) ≡ String.◌∷◌ c t ∷ ts
unfolding split
split-other sep c s t ts other cut = rw (other, cut) refl

-- One piece is the text, without the separator.
pub split-one : (sep : ℕ) (s a : String) → split sep s ≡ a ∷ [] → (s ≡ a) × Lacks sep s
unfolding split
split-one sep String.[] a h = ground arith
split-one sep (String.◌∷◌ c s) a h =
    let (t, ts, cut) = split-cons sep s in
    elim (Bool-cases (nat_eq (code c) sep)) [
      | inl there ↦ absurd (ground (arith, cut, split-separator sep c s there))
      | inr other ↦
          let pieces : String.◌∷◌ c t ∷ ts ≡ a ∷ [] =
            sym (split-other sep c s t ts other cut) ∙ h in
          let (same, lacks) =
            split-one sep s t (cut ∙ ap (λ r. t ∷ r) (tail-eq_of_cons-eq pieces)) in
          (ap (String.◌∷◌ c) same ∙ head-eq_of_cons-eq pieces, (other, lacks))
    ]

-- Two pieces stand around the one separator.
pub split-two :
    (d : Char) (s a b : String)
    → split (code d) s ≡ a ∷ (b ∷ [])
    → (s ≡ a <> String.◌∷◌ d b) × Lacks (code d) b
unfolding split
split-two d String.[] a b h = absurd (ground arith)
split-two d (String.◌∷◌ c s) a b h =
    let (t, ts, cut) = split-cons (code d) s in
    elim (Bool-cases (nat_eq (code c) (code d))) [
      | inl there ↦
          let pieces : "" ∷ split (code d) s ≡ a ∷ (b ∷ []) =
            sym (split-separator (code d) c s there) ∙ h in
          let (rest, lacks) = split-one (code d) s b (tail-eq_of_cons-eq pieces) in
          let char = codes_equal c d (same_code (code c) (code d) there) in
          (
            rw (sym (head-eq_of_cons-eq pieces))
                ((λ i. String.◌∷◌ (char i) (rest i)) ∙ sym (nil-append (String.◌∷◌ d b))),
            rw rest at lacks,
          )
      | inr other ↦
          let pieces : String.◌∷◌ c t ∷ ts ≡ a ∷ (b ∷ []) =
            sym (split-other (code d) c s t ts other cut) ∙ h in
          let (rest, lacks) =
            split-two d s t b (cut ∙ ap (λ r. t ∷ r) (tail-eq_of_cons-eq pieces)) in
          (
            ap (String.◌∷◌ c) rest
                ∙ sym (cons-append c t (String.◌∷◌ d b))
                ∙ ap (λ r. r <> String.◌∷◌ d b) (head-eq_of_cons-eq pieces),
            lacks,
          )
    ]

abbrev pub LackAll : ℕ → List String → Type 0
LackAll sep [] = Unit
LackAll sep (s ∷ ss) = Lacks sep s × LackAll sep ss

-- Texts without a comma that are joined by commas are split at the commas again.
pub split-join :
    (s : String) (ss : List String)
    → LackAll b',' (s ∷ ss)
    → split b',' (join "," (s ∷ ss)) ≡ s ∷ ss
unfolding join
split-join s [] (lacks, _) = split-lacking b',' s lacks
split-join s (t ∷ ts) (lacks, rest) =
    ap (λ r. split b',' (s <> r)) (cons-append "," "" _ ∙ ap (String.◌∷◌ ",") (nil-append _))
    ∙ split-append "," s (join "," (t ∷ ts)) lacks
    ∙ ap (λ r. s ∷ r) (split-join t ts rest)
