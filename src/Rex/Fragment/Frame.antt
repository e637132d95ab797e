-- ===== src/Rex/Fragment/Frame.antt =====
-- A fragment stays what it is while other states of the database change: so the compiler keeps one
-- while it builds the next.
use rpatk.Base.{
  ℕ, ◌<◌, ◌≤◌, ◌≡◌, ◌⊎◌, ◌↔◌, refl, sym, ap, ◌∙◌, Bool, true, false, ◌&&◌, Bool-cases, inl, inr,
  List, length, arith, ◌==◌, ==_iff,
}
use mathlib.Core.Path.{subst}
use rpatk.Rex.Transition.{trans_at}
use rpatk.Rex.State.{Db}
use rpatk.Rex.Fragment.{Fragment, nowhere, fork}
use rpatk.Rex.Fragment.Places.{part_at, part}
use rpatk.Rex.Fragment.Named.{dangles_in}
use rpatk.Rex.Fragment.Traces.{Trace, Reads, Within, Redirected, aimed, Trace-forth}
use rpatk.Rex.Fragment.Built.{IsFragment, map-redirect-nowhere, within, within_out}
use rpatk.Rex.Fragment.Fork.{fork_old}

-- The region is the same in both.
abbrev pub Keeps : Db → Db → ℕ → ℕ → Type 0
Keeps db db' lo hi = (u : ℕ) (e : Bool) → Within lo hi u → part_at db' u e ≡ part_at db u e

Keeps-Redirected : (db db' : Db) (lo hi : ℕ) → Keeps db db' lo hi → Redirected db db' lo hi nowhere
Keeps-Redirected db db' lo hi k u e w = k u e w ∙ sym (map-redirect-nowhere (part_at db u e))

pub Within-cases : (lo hi u : ℕ) → Within lo hi u ⊎ ((u < lo) ⊎ (hi ≤ u))
Within-cases lo hi u = elim (Bool-cases (within lo hi u)) [
  | inl h ↦ inl (ground arith)
  | inr h ↦ inr (ground arith)
]

pub within_from : (lo mid hi u : ℕ) → lo ≤ mid → mid ≤ u → within mid hi u ≡ within lo hi u
within_from lo mid hi u le ge = ground arith

pub and_false : (b : Bool) → (b && false) ≡ false
and_false true = refl
and_false false = refl

aimed_same : (u : ℕ) → aimed nowhere u ≡ u
unfolding aimed
aimed_same u = elim (Bool-cases (u == nowhere)) [
  | inl h ↦ rw h (sym ((==_iff u nowhere).0 h))
  | inr h ↦ rw h refl
]

module _ (db db' : Db) (f : Fragment) (lo hi : ℕ) where
  kept-Reads :
      IsFragment db f lo hi → Keeps db db' lo hi → (w : List ℕ) → Reads db f w → Reads db' f w
  unfolding Reads
  kept-Reads h k w (n, t) = (
    n,
    subst (λ u. Trace db' n u w nowhere) (aimed_same f.sstate)
        (Trace-forth db db' lo hi nowhere h.stays (Keeps-Redirected db db' lo hi k) h.room h.small n
          f.sstate w (inl h.begins) t),
  )

  pub kept-IsFragment :
      IsFragment db f lo hi
      → Keeps db db' lo hi
      → length db ≤ length db'
      → length db' ≤ nowhere
      → IsFragment db' f lo hi
  kept-IsFragment h k grown small = record {
    begins = h.begins;
    room = (let r = h.room in omega arith);
    small = small;
    stays = λ u e i w lt.
        subst (λ ts. ((trans_at ts i).dstuid ≡ nowhere) ⊎ Within lo hi (trans_at ts i).dstuid)
          (sym (k u e w)) (h.stays u e i w (subst (λ ts. i < length ts) (k u e w) lt));
    named = λ u e i. h.named u e i ∙ elim (Within-cases lo hi u) [
      | inl w ↦ ap (λ ts. within lo hi u && dangles_in ts i) (sym (k u e w))
      | inr out ↦ rw (within_out lo hi u out) refl
    ];
  }

module _ (db db' : Db) (f : Fragment) (lo hi : ℕ) (h : IsFragment db f lo hi)
    (k : Keeps db db' lo hi) (grown : length db ≤ length db') (small : length db' ≤ nowhere) where
  -- While the region stays, the fragment stays one and reads the same words.
  pub IsFragment-Keeps : IsFragment db' f lo hi × ((w : List ℕ) → Reads db' f w ↔ Reads db f w)
  IsFragment-Keeps =
      let h' = kept-IsFragment db db' f lo hi h k grown small in
      (
        h',
        λ w. (
          kept-Reads db' db f lo hi h' (λ u e x. sym (k u e x)) w,
          kept-Reads db db' f lo hi h k w,
        ),
      )

-- The region of a fragment stays when a state is added.
pub fork-Keeps : (db : Db) (a b lo hi : ℕ) → hi ≤ length db → Keeps db (fork db a b).0 lo hi
fork-Keeps db a b lo hi room u e w = ap (part e) (fork_old db a b u (omega arith))
