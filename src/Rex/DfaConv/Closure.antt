-- ===== src/Rex/DfaConv/Closure.antt =====
-- `rex_dfaconv_eclosure` computes the closure under empty transitions.
use rpatk.Base.{
  ℕ, zero, suc, ◌+◌, ◌≤◌, ◌≡◌, ◌⊎◌, ◌↔◌, inl, inr, refl, ap, true, false, Bool-cases, some, List,
  [], ◌∷◌, ◌++◌, length, length-append, arith,
}
use mathlib.Core.Path.{subst}
use rpatk.Rex.Subset.{In, IsSubset}
use rpatk.Rex.Subset.Member.{In-append, pop_last-append}
use rpatk.Rex.Subset.Insert.{append-IsSubset}
use rpatk.Rex.State.{Db, state_at, IsClosed}
use rpatk.Rex.DfaConv.{Marks, Work, set_mark, enqueue, scan, closure_loop, unmark, finish, eclosure}
use rpatk.Rex.DfaConv.Reach.{Epsilon, Reach, here, step}
use rpatk.Rex.DfaConv.Scan.{
  IsWork, unmarked_le, measure, scan-IsWork, marked-scan, In-scan, measure-scan, enqueue-IsWork,
  marked-enqueue, In-enqueue, measure-enqueue,
}

shape_of :
    (w : Work) (rest : List ℕ) (u : ℕ)
    → w.set_t ≡ rest ++ u ∷ []
    → IsWork w
    → IsWork (record w { set_t = rest })
shape_of w rest u e h = record {
  stack = append-IsSubset rest (u ∷ []) (subst IsSubset e h.stack);
  result = h.result;
  marks = h.marks;
}

unmark_lem :
    (us : List ℕ) (f : Marks) (v : ℕ) → ((unmark us f) v ≡ true) ↔ ((f v ≡ true) × ¬ In v us)
unfolding unmark set_mark
unmark_lem [] f v = (λ h. (h, λ k. k), λ h. h.0)
unmark_lem (u ∷ us) f v = ground (arith, unmark_lem us (set_mark f u false) v)

module _ (db : Db) (src : List ℕ) where
  record Inv (w : Work) : Type 0 where
    shape : IsWork w
    source : (v : ℕ) → In v src → w.marked v ≡ true
    stacked : (v : ℕ) → In v w.set_t → w.marked v ≡ true
    sound : (v : ℕ) → w.marked v ≡ true → Reach db src v
    closed : (u v : ℕ) → w.marked u ≡ true → Epsilon db u v → In u w.set_t ⊎ (w.marked v ≡ true)

  Inv-round :
      (w : Work) (rest : List ℕ) (u : ℕ)
      → w.set_t ≡ rest ++ u ∷ []
      → Inv w
      → Inv (scan (state_at db u).etrans (record w { set_t = rest }))
  Inv-round w rest u e h =
      let ts = (state_at db u).etrans in
      let w' = record w { set_t = rest } in
      let member : (v : ℕ) → In v w.set_t ↔ (In v rest ⊎ In v (u ∷ [])) =
        λ v. rw e (In-append v rest (u ∷ [])) in
      let shape' = shape_of w rest u e h.shape in
      let to_u = h.sound u (h.stacked u ((member u).1 (inr (inl refl)))) in
      record {
        shape = scan-IsWork ts w' shape';
        source = λ v k. (marked-scan ts w' v shape').1 (inr (h.source v k));
        stacked = λ v k.
            ground
              (arith, marked-scan ts w' v shape', In-scan ts w' v shape', member v, h.stacked v);
        sound = λ v k. elim ((marked-scan ts w' v shape').0 k) [
          | inl edge ↦ step to_u edge
          | inr old ↦ h.sound v old
        ];
        closed = λ x v m edge. elim (Bool-cases (w.marked x)) [
          | inr new ↦ inl ((In-scan ts w' x shape').1 (inr (m, new)))
          | inl old ↦ elim (h.closed x v old edge) [
            | inr done ↦ inr ((marked-scan ts w' v shape').1 (inr done))
            | inl waits ↦ elim ((member x).0 waits) [
              | inl still ↦ inl ((In-scan ts w' x shape').1 (inl still))
              | inr (inl same) ↦
                  inr ((marked-scan ts w' v shape').1 (inl (subst (λ y. Epsilon db y v) same edge)))
              | inr (inr none_left) ↦ absurd none_left
            ]
          ]
        ];
      }

  -- with an empty stack the marked states are closed under empty transitions
  complete : (w : Work) → Inv w → w.set_t ≡ [] → {v : ℕ} → Reach db src v → w.marked v ≡ true
  complete w h e (here k) = h.source _ k
  complete w h e (step {u} {v} p edge) = elim (h.closed u v (complete w h e p) edge) [
    | inl waiting ↦ absurd (subst (In u) e waiting)
    | inr m ↦ m
  ]

  -- with fuel for the measure, the loop ends, in a state of the invariant with an empty stack
  closure_loop_ends :
      (fuel : ℕ) (w : Work)
      → IsClosed db
      → measure (length db) w ≤ fuel
      → Inv w
      → (t : Work) × (closure_loop fuel db w ≡ some t) × Inv t × (t.set_t ≡ [])
  unfolding closure_loop
  closure_loop_ends zero w ok m h = elim (pop_last-append w.set_t) [
    | inl (e, nil) ↦ (w, rw (e, closure_loop), h, nil)
    | inr (ys, y, e, split) ↦ absurd (omega (arith, ap length split, length-append ys (y ∷ [])))
  ]
  closure_loop_ends (suc fuel) w ok m h = elim (pop_last-append w.set_t) [
    | inl (e, nil) ↦ (w, rw (e, closure_loop), h, nil)
    | inr (ys, y, e, split) ↦
        let next = Inv-round w ys y split h in
        let ts = (state_at db y).etrans in
        let w' = record w { set_t = ys } in
        let (t, ends, inv, nil) =
          closure_loop_ends fuel (scan ts w') ok
            (omega (
              arith,
              ap length split,
              length-append ys (y ∷ []),
              measure-scan (length db) ts w' (shape_of w ys y split h.shape) (ok.epsilon y),
            ))
            next in
        (t, rw (e, closure_loop) ends, inv, nil)
  ]

unmark_clean : (w : Work) → IsWork w → (v : ℕ) → (unmark w.dest w.marked) v ≡ false
unmark_clean w h v = elim (Bool-cases ((unmark w.dest w.marked) v)) [
  | inr off ↦ off
  | inl on ↦ let (m, out) = (unmark_lem w.dest w.marked v).0 on in absurd (out ((h.marks v).1 m))
]

module _ (db : Db) (src : List ℕ) (marks : Marks) (clean : (v : ℕ) → marks v ≡ false) where
  first : Work
  first = record { set_t = []; dest = []; marked = marks }

  first-IsWork : IsWork first
  unfolding first
  first-IsWork = record {
    stack = λ i j lt h. elim h [ ];
    result = λ i j lt h. elim h [ ];
    marks = λ v. (λ k. absurd k, λ m. cc (clean v));
  }

  first-Inv : Inv db src (enqueue src first)
  unfolding first
  first-Inv =
      let start = first-IsWork in
      let marked = λ (v : ℕ). marked-enqueue src first v start in
      record {
        shape = enqueue-IsWork src first start;
        source = λ v k. (marked v).1 (inl k);
        stacked = λ v k. ground (arith, marked v, In-enqueue src first v start, clean v);
        sound = λ v k. elim ((marked v).0 k) [ inl s ↦ here s | inr m ↦ cc (clean v) ];
        closed =
            λ u v m edge. inl (ground (arith, marked u, In-enqueue src first u start, clean u));
      }

  -- The closure ends within its fuel. Its result is strictly ascending and holds exactly the states
  -- that empty transitions reach from the source, and it leaves no state marked: for a database
  -- whose transitions lead to states of it, and no state marked before.
  pub eclosure-Reach :
      IsClosed db
      → (dest : List ℕ) × (marks' : Marks) × (eclosure db src marks ≡ some (dest, marks'))
        × IsSubset dest
        × ((v : ℕ) → In v dest ↔ Reach db src v)
        × ((v : ℕ) → marks' v ≡ false)
  unfolding eclosure first
  eclosure-Reach ok =
      let (t, ends, inv, nil) =
        closure_loop_ends db src (length db + length src) (enqueue src first) ok
          (omega (
            arith,
            measure-enqueue (length db) src first first-IsWork,
            unmarked_le (length db) marks,
          ))
          first-Inv in
      (
        t.dest,
        unmark t.dest t.marked,
        rw (ends, finish),
        inv.shape.result,
        λ v. (
          λ k. inv.sound v ((inv.shape.marks v).0 k),
          λ r. (inv.shape.marks v).1 (complete db src t inv nil r),
        ),
        unmark_clean t inv.shape,
      )
