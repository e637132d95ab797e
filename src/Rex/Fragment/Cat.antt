-- ===== src/Rex/Fragment/Cat.antt =====
-- `rex_fragment_cat`: one fragment after the other.
use rpatk.Base.{
  ℕ, ◌+◌, ◌≡◌, ◌↔◌, refl, sym, ap, ◌∙◌, Bool, false, ◌&&◌, Bool-cases, inl, inr, List, arith, ltb,
  ltb→lt, ltb→le,
}
use mathlib.Core.Path.{subst}
use rpatk.Rex.State.{Db}
use rpatk.Rex.Fragment.{Fragment, nowhere, cat, patch}
use rpatk.Rex.Fragment.Places.{part_at, hit, length-patch}
use rpatk.Rex.Fragment.Named.{dangles, dangles_in}
use rpatk.Rex.Fragment.Words.{Concat}
use rpatk.Rex.Fragment.Traces.{
  Trace, Reads, Within, Trace-forth, Trace-back, Trace-++, aimed, aimed_away,
}
use rpatk.Rex.Fragment.Built.{
  IsFragment, within, within_out, patch-Redirected, patch_outside, Redirected-Stays, dangles_in-map,
}
use rpatk.Rex.Fragment.Frame.{Keeps, IsFragment-Keeps, Within-cases, within_from, and_false}

module _ (db : Db) (f₁ f₂ : Fragment) (lo mid hi : ℕ) (h₁ : IsFragment db f₁ lo mid)
    (h₂ : IsFragment db f₂ mid hi) where
  patched : Db
  patched = patch db f₁.dangling f₂.sstate

  second-Keeps : Keeps db patched mid hi
  unfolding patched
  second-Keeps u e w =
      patch_outside db f₁ lo mid h₁ f₂.sstate u e (let r = h₂.room in omega arith) (inr w.0)

  second : IsFragment patched f₂ mid hi × ((w : List ℕ) → Reads patched f₂ w ↔ Reads db f₂ w)
  unfolding patched
  second =
      let size = length-patch db f₁.dangling f₂.sstate in
      let s = h₁.small in
      IsFragment-Keeps db patched f₂ mid hi h₂ second-Keeps (omega arith) (omega arith)

  first_named : (u : ℕ) (e : Bool) (i : ℕ) → Within lo mid u → dangles patched u e i ≡ false
  unfolding patched
  first_named u e i w =
      let b = h₂.begins in
      let r = h₂.room in
      let s = h₂.small in
      ap (λ ts. dangles_in ts i) (patch-Redirected db f₁ lo mid h₁ f₂.sstate u e w)
      ∙ dangles_in-map f₂.sstate (part_at db u e) i (omega arith)

  named :
      (u : ℕ) (e : Bool) (i : ℕ) → hit f₂.dangling u e i ≡ (within lo hi u && dangles patched u e i)
  named u e i =
      let b₁ = h₁.begins in
      let b₂ = h₂.begins in
      second.0.named u e i ∙ elim (Within-cases lo mid u) [
        | inl w ↦
            rw (first_named u e i w)
              (rw (within_out mid hi u (inl w.1)) (sym (and_false (within lo hi u))))
        | inr (inl lt) ↦
            rw (within_out lo hi u (inl lt)) (rw (within_out mid hi u (inl (omega arith))) refl)
        | inr (inr ge) ↦
            ap (λ b. b && dangles patched u e i) (within_from lo mid hi u (omega arith) ge)
      ]

  start : aimed f₂.sstate f₁.sstate ≡ f₁.sstate
  start =
      let b₁ = h₁.begins in
      let r₁ = h₁.room in let s = h₁.small in aimed_away f₂.sstate f₁.sstate (omega arith)

  cat-Reads :
      (w : List ℕ)
      → Reads (cat db f₁ f₂).0 (cat db f₁ f₂).1 w
      → Concat (Reads db f₁) (Reads db f₂) w
  unfolding cat patched Reads
  cat-Reads w (n, k) =
      let r₁ = h₁.room in
      let s = h₁.small in
      let (i, j, x, y, q, first, after, sum) =
        Trace-back db patched lo mid f₂.sstate h₁.stays (patch-Redirected db f₁ lo mid h₁ f₂.sstate)
          r₁ s n f₁.sstate nowhere w (inl h₁.begins) (inr (omega arith))
          (subst (λ u. Trace patched n u w nowhere) (sym start) k) in
      (x, y, q, (i, first), (second.1 y).0 (j, after))

  Reads-cat :
      (w : List ℕ)
      → Concat (Reads db f₁) (Reads db f₂) w
      → Reads (cat db f₁ f₂).0 (cat db f₁ f₂).1 w
  unfolding cat patched Reads
  Reads-cat w (x, y, q, (n, first), k) =
      let (m, after) = (second.1 y).1 k in
      let through =
        Trace-forth db patched lo mid f₂.sstate h₁.stays
          (patch-Redirected db f₁ lo mid h₁ f₂.sstate) h₁.room h₁.small n f₁.sstate x
          (inl h₁.begins) first in
      (
        n + m,
        subst (λ v. Trace patched (n + m) f₁.sstate v nowhere) (sym q)
            (Trace-++ patched n m f₁.sstate f₂.sstate nowhere x y
              (subst (λ u. Trace patched n u x f₂.sstate) start through) after),
      )

  -- The result is a fragment of both regions, and its words are one of the first with one of the
  -- second after it.
  pub cat-Concat :
      IsFragment (cat db f₁ f₂).0 (cat db f₁ f₂).1 lo hi
      × ((w : List ℕ)
          → Reads (cat db f₁ f₂).0 (cat db f₁ f₂).1 w ↔ Concat (Reads db f₁) (Reads db f₂) w)
  unfolding cat patched
  cat-Concat =
      let b₁ = h₁.begins in
      let b₂ = h₂.begins in
      let size = length-patch db f₁.dangling f₂.sstate in
      let r = h₂.room in
      let small = h₂.small in
      let redirected = patch-Redirected db f₁ lo mid h₁ f₂.sstate in
      (
        record {
          begins = omega arith;
          room = omega arith;
          small = omega arith;
          stays = λ u e i w lt. elim (Bool-cases (ltb u mid)) [
            | inl first ↦
                Redirected-Stays db patched lo mid f₂.sstate lo hi h₁.stays redirected (omega arith)
                  (inr (omega arith)) u e i (w.0, ltb→lt u mid first) lt
            | inr after ↦ elim (second.0.stays u e i (ltb→le u mid after, w.1) lt) [
              | inl q ↦ inl q
              | inr v ↦ inr (omega arith)
            ]
          ];
          named = named;
        },
        λ w. (cat-Reads w, Reads-cat w),
      )
