-- ===== src/Rex/Fragment/Loop.antt =====
-- `rex_fragment_mop`, `rex_fragment_mul`: a new state to which the fragment's ends lead back.
use rpatk.Base.{
  ℕ, zero, suc, ◌+◌, ◌<◌, ◌≤◌, ◌≡◌, ◌⊎◌, refl, sym, ap, ◌∙◌, Bool, true, false, ◌&&◌, ◌||◌,
  Bool-cases, inl, inr, List, [], ◌++◌, length, arith, ◌==◌, ==_iff, map,
}
use mathlib.Core.Path.{subst}
use rpatk.Rex.Transition.{Transition, trans_at}
use rpatk.Rex.State.{Db}
use rpatk.Rex.Fragment.{Fragment, nowhere, patch, add_dangling}
use rpatk.Rex.Fragment.Places.{part_at, hit, length-patch}
use rpatk.Rex.Fragment.Named.{dangles, dangles_in, hit-add_dangling, or_false}
use rpatk.Rex.Fragment.Words.{Star, Times}
use rpatk.Rex.Fragment.Traces.{
  Trace, Reads, Stays, Within, Trace-nowhere, Trace-forth, Trace-back, Trace-++, aimed_away, aimed,
}
use rpatk.Rex.Fragment.Built.{
  IsFragment, within, patch-Redirected, patch_outside, Redirected-Stays, dangles_in-map,
  within-Within, within_out,
}
use rpatk.Rex.Fragment.Fork.{IsFork, Trace-fork, Trace-fork_left, Trace-fork_right}
use rpatk.Rex.Fragment.Frame.{and_false, Within-cases}
use rpatk.Rex.Fragment.Branch.{Ends, Stays-fork, within-suc}

-- The state `n` leads to the start of the fragment before it or nowhere.
abbrev pub Turns : Db → Fragment → ℕ → Type 0
Turns db f n = IsFork db n nowhere f.sstate ⊎ IsFork db n f.sstate nowhere

module _ (db : Db) (f : Fragment) (lo n : ℕ) (h : IsFragment db f lo n) (turns : Turns db f n)
    (here : n < length db) where
  abbrev pub loop_db : Db
  loop_db = patch db f.dangling n

  size : length loop_db ≡ length db
  size = length-patch db f.dangling n

  kept : (e : Bool) → part_at loop_db n e ≡ part_at db n e
  kept e = patch_outside db f lo n h n n e here (inr (omega arith))

  loop-Turns : Turns loop_db f n
  loop-Turns = elim turns [
    | inl k ↦ inl (record {
      ways = ap (map (λ (t : Transition). t.dstuid)) (kept true) ∙ k.ways;
      no_moves = kept false ∙ k.no_moves;
    })
    | inr k ↦ inr (record {
      ways = ap (map (λ (t : Transition). t.dstuid)) (kept true) ∙ k.ways;
      no_moves = kept false ∙ k.no_moves;
    })
  ]

  turn :
      (m : ℕ) (w : List ℕ)
      → Trace loop_db m n w nowhere
      → (k : ℕ) × (m ≡ suc k)
        × (Trace loop_db k nowhere w nowhere ⊎ Trace loop_db k f.sstate w nowhere)
  turn m w t =
      let s = h.small in
      elim loop-Turns [
        | inl k ↦ Trace-fork loop_db n nowhere f.sstate k m w nowhere (inl (omega arith)) t
        | inr k ↦
            let (i, q, way) =
              Trace-fork loop_db n f.sstate nowhere k m w nowhere (inl (omega arith)) t in
            (i, q, elim way [ inl x ↦ inr x | inr x ↦ inl x ])
      ]

  pub turn_out :
      (m : ℕ) (w : List ℕ) → Trace loop_db m nowhere w nowhere → Trace loop_db (suc m) n w nowhere
  turn_out m w t = elim loop-Turns [
    | inl k ↦ Trace-fork_left loop_db n nowhere f.sstate k m w nowhere t
    | inr k ↦ Trace-fork_right loop_db n f.sstate nowhere k m w nowhere t
  ]

  turn_in : (m v : ℕ) (w : List ℕ) → Trace loop_db m f.sstate w v → Trace loop_db (suc m) n w v
  turn_in m v w t = elim loop-Turns [
    | inl k ↦ Trace-fork_right loop_db n nowhere f.sstate k m w v t
    | inr k ↦ Trace-fork_left loop_db n f.sstate nowhere k m w v t
  ]

  start : aimed n f.sstate ≡ f.sstate
  start =
      let b = h.begins in let r = h.room in let s = h.small in aimed_away n f.sstate (omega arith)

  -- from the start of the fragment: one of its words, and then on from `n`
  pub through :
      (m : ℕ) (w : List ℕ)
      → Trace loop_db m f.sstate w nowhere
      → (k : ℕ) × (x : List ℕ) × (y : List ℕ) × (w ≡ x ++ y)
        × Reads db f x
        × Trace loop_db k n y nowhere
        × (k ≤ m)
  unfolding Reads
  through m w t =
      let r = h.room in
      let s = h.small in
      let (i, j, x, y, q, first, after, sum) =
        Trace-back db loop_db lo n n h.stays (patch-Redirected db f lo n h n) r s m f.sstate nowhere
          w (inl h.begins) (inr (omega arith))
          (subst (λ u. Trace loop_db m u w nowhere) (sym start) t) in
      (j, x, y, q, (i, first), after, omega arith)

  pub along : (m : ℕ) (x : List ℕ) → Trace db m f.sstate x nowhere → Trace loop_db m f.sstate x n
  along m x t =
      subst (λ u. Trace loop_db m u x n) start
        (Trace-forth db loop_db lo n n h.stays (patch-Redirected db f lo n h n) h.room h.small m
          f.sstate x (inl h.begins) t)

  pub loop-Star :
      (fuel m : ℕ) (w : List ℕ) → m ≤ fuel → Trace loop_db m n w nowhere → Star (Reads db f) w
  unfolding Times
  loop-Star zero m w le t = let (k, q, way) = turn m w t in absurd (omega arith)
  loop-Star (suc fuel) m w le t =
      let (k, q, way) = turn m w t in
      elim way [
        | inl end_ ↦
            (0, Trace-nowhere loop_db k nowhere w (let s = h.small in omega (arith, size)) end_)
        | inr in_ ↦
            let (i, x, y, q', first, after, le') = through k w in_ in
            let (c, rest) = loop-Star fuel i y (omega arith) after in
            (suc c, (x, y, q', first, rest))
      ]

  pub Star-loop :
      (c : ℕ) (w : List ℕ) → Times (Reads db f) c w → (m : ℕ) × Trace loop_db m n w nowhere
  unfolding Times Reads Trace
  Star-loop zero w q = (1, turn_out 0 w (refl, q))
  Star-loop (suc c) w (x, y, q, (i, first), rest) =
      let (j, after) = Star-loop c y rest in
      (
        suc i + j,
        subst (λ v. Trace loop_db (suc i + j) n v nowhere) (sym q)
            (Trace-++ loop_db (suc i) j n n nowhere x y (turn_in i n x (along i x first)) after),
      )

  loop-Stays : Stays loop_db lo (suc n)
  loop-Stays =
      let b = h.begins in
      let s = h.small in
      let rest : (u : ℕ) (e : Bool) (i : ℕ)
          → Within lo n u
          → i < length (part_at loop_db u e)
          → Ends lo (suc n) (trans_at (part_at loop_db u e) i).dstuid =
        λ u e i w lt.
          Redirected-Stays db loop_db lo n n lo (suc n) h.stays (patch-Redirected db f lo n h n)
            (omega arith) (inr (omega arith)) u e i w lt in
      elim loop-Turns [
        | inl k ↦ Stays-fork loop_db lo n nowhere f.sstate k (inl refl) (inr (omega arith)) rest
        | inr k ↦ Stays-fork loop_db lo n f.sstate nowhere k (inr (omega arith)) (inl refl) rest
      ]

  full : (u : ℕ) (e : Bool) (i : ℕ) → Within lo n u → dangles loop_db u e i ≡ false
  full u e i w =
      let s = h.small in
      ap (λ ts. dangles_in ts i) (patch-Redirected db f lo n h n u e w)
      ∙ dangles_in-map n (part_at db u e) i (omega arith)

  loop_named :
      (u : ℕ) (e : Bool) (i : ℕ)
      → hit (add_dangling db [] n) u e i ≡ (within lo (suc n) u && dangles loop_db u e i)
  unfolding hit
  loop_named u e i =
      let b = h.begins in
      hit-add_dangling db [] n u e i ∙ elim (Bool-cases (n == u)) [
        | inl same ↦
            let q = (==_iff n u).0 same in
            rw same (
              ap (λ ts. dangles_in ts i)
                (subst (λ v. part_at db v e ≡ part_at loop_db v e) q (sym (kept e)))
              ∙ ap (λ c. c && dangles loop_db u e i)
                  (sym (within-Within lo (suc n) u (omega arith))))
        | inr other ↦ rw other (
            sym (
              ap (λ c. c && dangles loop_db u e i)
                (within-suc lo n u (omega arith)
                  ∙ ap (λ c. within lo n u || c) other
                  ∙ or_false (within lo n u))
              ∙ elim (Within-cases lo n u) [
                | inl w ↦ rw (full u e i w) (and_false (within lo n u))
                | inr out ↦ rw (within_out lo n u out) refl
              ]))
      ]

  pub loop-IsFragment :
      (start_ : ℕ)
      → Within lo (suc n) start_
      → IsFragment loop_db (record { sstate = start_; dangling = add_dangling db [] n }) lo (suc n)
  loop-IsFragment start_ w = record {
    begins = w;
    room = omega (arith, size);
    small = (let s = h.small in omega (arith, size));
    stays = loop-Stays;
    named = loop_named;
  }
