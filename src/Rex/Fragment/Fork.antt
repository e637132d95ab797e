-- ===== src/Rex/Fragment/Fork.antt =====
-- The new state of an operator on fragments: what it has, and that the others stay.
use rpatk.Base.{
  ℕ, zero, suc, ◌+◌, ◌<◌, ◌≡◌, ◌⊎◌, refl, sym, ap, ◌∙◌, Bool, true, false, inl, inr, none, some,
  List, [], ◌∷◌, ◌++◌, map, length, get_or, length-set, get_or-set_self, get_or-set_ne,
  length-append, arith, ltb, ltb→lt, ltb→le, ne→==, Bool-cases,
}
use rpatk.Base.Slices.{get_or-append, get_or-append_last}
use mathlib.Core.Path.{subst}
use rpatk.Rex.Transition.{Transition, trans_at, transitions_add_e}
use rpatk.Rex.State.{
  Db, State, state_at, missing, none_state, createstate, state_create, addtransition_e,
}
use rpatk.Rex.Fragment.{nowhere, fork}
use rpatk.Rex.Fragment.Places.{part_at, part}
use rpatk.Rex.Fragment.Named.{dangles, dangles_in_at, dangles_in_past}
use rpatk.Rex.Fragment.Traces.{Trace, Edge}

module _ (db : Db) (a b : ℕ) where
  pub fork_uid : (fork db a b).1 ≡ length db
  unfolding fork createstate
  fork_uid = refl

  pub length-fork : length (fork db a b).0 ≡ length db + 1
  unfolding fork createstate
  length-fork =
      length-set (db ++ state_create (length db) none_state ∷ []) (length db) _ ∙ length-append db _

  pub fork_old : (u : ℕ) → u < length db → state_at (fork db a b).0 u ≡ state_at db u
  unfolding fork createstate
  fork_old u lt =
      get_or-set_ne (db ++ state_create (length db) none_state ∷ []) (length db) u _ missing
        (λ e. omega arith)
      ∙ get_or-append u db _ missing lt

  new_state : State
  new_state = addtransition_e (addtransition_e (state_create (length db) none_state) a) b

  fork_new : state_at (fork db a b).0 (length db) ≡ new_state
  unfolding fork createstate new_state
  fork_new =
      let s = state_create (length db) none_state in
      get_or-set_self (db ++ s ∷ []) (length db) _ missing
        (omega (arith, length-append db (s ∷ [])))
      ∙ ap (λ s'. addtransition_e (addtransition_e s' a) b) (get_or-append_last db s missing)

  pub fork_etrans :
      map (λ (t : Transition). t.dstuid) (part_at (fork db a b).0 (length db) true) ≡ a ∷ b ∷ []
  unfolding new_state addtransition_e transitions_add_e state_create
  fork_etrans = ap (λ s. map (λ (t : Transition). t.dstuid) (part true s)) fork_new

  pub fork_trans : part_at (fork db a b).0 (length db) false ≡ []
  unfolding new_state addtransition_e state_create
  fork_trans = ap (part false) fork_new

-- The state has two empty transitions, to `a` and to `b`, and no other.
pub record IsFork (db : Db) (uid a b : ℕ) : Type 0 where
  pub ways : map (λ (t : Transition). t.dstuid) (part_at db uid true) ≡ a ∷ b ∷ []
  pub no_moves : part_at db uid false ≡ []

pub fork-IsFork : (db : Db) (a b : ℕ) → IsFork (fork db a b).0 (length db) a b
fork-IsFork db a b = record { ways = fork_etrans db a b; no_moves = fork_trans db a b }

two_ways :
    (ts : List Transition) (a b : ℕ)
    → map (λ (t : Transition). t.dstuid) ts ≡ a ∷ b ∷ []
    → (length ts ≡ 2) × ((trans_at ts 0).dstuid ≡ a) × ((trans_at ts 1).dstuid ≡ b)
two_ways [] a b q = absurd (omega (arith, ap length q))
two_ways (t ∷ []) a b q = absurd (omega (arith, ap length q))
two_ways (t ∷ s ∷ []) a b q = (refl, ap (λ xs. get_or xs 0 0) q, ap (λ xs. get_or xs 1 0) q)
two_ways (t ∷ s ∷ r ∷ ts) a b q = absurd (omega (arith, ap length q))

module _ (db : Db) (uid a b : ℕ) (h : IsFork db uid a b) where
  pub Trace-fork_left : (n : ℕ) (w : List ℕ) (v : ℕ) → Trace db n a w v → Trace db (suc n) uid w v
  unfolding Trace
  Trace-fork_left n w v k =
      let (size, first, second) = two_ways (part_at db uid true) a b h.ways in
      (none, w, a, refl, (0, omega arith, tt, sym first), k)

  pub Trace-fork_right : (n : ℕ) (w : List ℕ) (v : ℕ) → Trace db n b w v → Trace db (suc n) uid w v
  unfolding Trace
  Trace-fork_right n w v k =
      let (size, first, second) = two_ways (part_at db uid true) a b h.ways in
      (none, w, b, refl, (1, omega arith, tt, sym second), k)

  one_way : (d : ℕ) → Edge db uid none d → (d ≡ a) ⊎ (d ≡ b)
  one_way d (zero, lt, fit, q) =
      let (size, first, second) = two_ways (part_at db uid true) a b h.ways in inl (q ∙ first)
  one_way d (suc zero, lt, fit, q) =
      let (size, first, second) = two_ways (part_at db uid true) a b h.ways in inr (q ∙ second)
  one_way d (suc (suc i), lt, fit, q) =
      let (size, first, second) = two_ways (part_at db uid true) a b h.ways in absurd (omega arith)

  pub Trace-fork :
      (n : ℕ) (w : List ℕ) (v : ℕ)
      → (uid < v) ⊎ (v < uid)
      → Trace db n uid w v
      → (m : ℕ) × (n ≡ suc m) × (Trace db m a w v ⊎ Trace db m b w v)
  unfolding Trace
  Trace-fork zero w v out (q, z) = absurd (omega arith)
  Trace-fork (suc n) w v out (some c, x, d, p, (i, lt, fit, q), k) =
      elim (subst (λ ts. i < length ts) h.no_moves lt) [ ]
  Trace-fork (suc n) w v out (none, x, d, p, e, k) =
      let k' : Trace db n d w v = subst (λ y. Trace db n d y v) (sym p) k in
      (
        n,
        refl,
        elim (one_way d e) [
          | inl q ↦ inl (subst (λ u. Trace db n u w v) q k')
          | inr q ↦ inr (subst (λ u. Trace db n u w v) q k')
        ],
      )

  -- where its transitions lead
  pub fork_ends :
      (P : ℕ → Type 0)
      → P a
      → P b
      → (e : Bool) (i : ℕ) → i < length (part_at db uid e)
      → P (trans_at (part_at db uid e) i).dstuid
  fork_ends P at_a at_b false i lt = elim (subst (λ ts. i < length ts) h.no_moves lt) [ ]
  fork_ends P at_a at_b true i lt =
      elim (one_way (trans_at (part_at db uid true) i).dstuid (i, lt, tt, refl)) [
        | inl q ↦ subst P (sym q) at_a
        | inr q ↦ subst P (sym q) at_b
      ]

-- With no end that leads nowhere, the state has no dangling transition.
pub dangles-fork :
    (db : Db) (uid a b : ℕ)
    → IsFork db uid a b
    → a < nowhere
    → b < nowhere
    → (e : Bool) (i : ℕ) → dangles db uid e i ≡ false
dangles-fork db uid a b h at_a at_b e i = elim (Bool-cases (ltb i (length (part_at db uid e)))) [
  | inl inside ↦
      let lt = ltb→lt i (length (part_at db uid e)) inside in
      let end_ = fork_ends db uid a b h (λ d. d < nowhere) at_a at_b e i lt in
      dangles_in_at (part_at db uid e) i lt ∙ ne→== _ nowhere (λ q. omega arith)
  | inr past ↦ dangles_in_past (part_at db uid e) i (ltb→le i (length (part_at db uid e)) past)
]
