-- ===== src/Rex/Normalize/Sorted.antt =====
-- On sorted transitions the normalisation keeps what they lead to.
use rpatk.Base.{
  ℕ, zero, suc, ◌+◌, ◌≤◌, ◌<◌, ◌≡◌, ◌⊎◌, ◌↔◌, refl, sym, ap, ◌∙◌, inl, inr, Bool-cases, some, List,
  [], ◌∷◌, length, length-set, length-take, get_or, set, lt→ltb, ◌==◌, ==_iff, ==→ne, arith,
  get_or-set_self, get_or-set_ne,
}
use rpatk.Base.Slices.{remove_at, get_or-take, take-set_lt}
use rpatk.RArray.{Memory, RArray, slot, contents, exist_replace, delete}
use rpatk.RArray.Contents.{IsValid}
use rpatk.RArray.Delete.{delete_lem}
use rpatk.Rex.Search.{IsStrict}
use rpatk.Rex.Transition.{Transition, blank, trans_at, low_at}
use rpatk.Rex.Transition.Moves.{Moves, IsNormal}
use rpatk.Rex.Normalize.{overlap, adjacent, verdict}
use rpatk.Rex.Normalize.Merge.{get_or-remove_at, length-remove_at}

-- Proper ranges that start one behind the other; they may still overlap.
pub record AreSorted (ts : List Transition) : Type 0 where
  pub proper : (k : ℕ) → k < length ts → (trans_at ts k).lowin ≤ (trans_at ts k).highin
  pub strict : IsStrict (low_at ts) (length ts)

set-cases :
    (ts : List Transition) (i k : ℕ) (t : Transition)
    → i < length ts
    → ((k ≡ i) × (trans_at (set ts i t) k ≡ t)) ⊎ (trans_at (set ts i t) k ≡ trans_at ts k)
set-cases ts i k t lt = elim (Bool-cases (k == i)) [
  | inl same ↦
      let e = (==_iff k i).0 same in
      inl (e, ap (trans_at (set ts i t)) e ∙ get_or-set_self ts i t blank lt)
  | inr other ↦ inr (get_or-set_ne ts i k t blank (λ e. ==→ne k i other (sym e)))
]

-- a range changed above its start
pub set-AreSorted :
    (ts : List Transition) (i : ℕ) (t : Transition)
    → i < length ts
    → t.lowin ≡ low_at ts i
    → t.lowin ≤ t.highin
    → AreSorted ts
    → AreSorted (set ts i t)
set-AreSorted ts i t lt low ordered s =
    let size = length-set ts i t in
    let lows : (k : ℕ) → low_at (set ts i t) k ≡ low_at ts k = λ k. elim (set-cases ts i k t lt) [
      | inl (e, new) ↦ ap (λ (x : Transition). x.lowin) new ∙ low ∙ ap (low_at ts) (sym e)
      | inr old ↦ ap (λ (x : Transition). x.lowin) old
    ] in
    record {
      proper = λ k h. elim (set-cases ts i k t lt) [
        | inl (e, new) ↦ rw new ordered
        | inr old ↦ rw old (s.proper k (omega (arith, size)))
      ];
      strict = λ a b p q. omega (arith, lows a, lows b, s.strict a b p (omega (arith, size)));
    }

same_low : {x y : Transition} → x ≡ y → x.lowin ≡ y.lowin
same_low e = ap (λ (t : Transition). t.lowin) e

pub remove_at-AreSorted :
    (ts : List Transition) (j : ℕ) → j < length ts → AreSorted ts → AreSorted (remove_at j ts)
remove_at-AreSorted ts j lt s =
    let size = length-remove_at j ts lt in
    record {
      proper = λ k h. elim (get_or-remove_at j k ts) [
        | inl (p, e) ↦ rw e (s.proper k (omega (arith, size)))
        | inr (p, e) ↦ rw e (s.proper (suc k) (omega (arith, size)))
      ];
      strict = λ a b p q. elim (get_or-remove_at j a ts) [
        | inl (u, e) ↦ elim (get_or-remove_at j b ts) [
          | inl (v, f) ↦ omega (arith, same_low e, same_low f, s.strict a b p (omega (arith, size)))
          | inr (v, f) ↦ omega (
            arith,
            same_low e,
            same_low f,
            s.strict a (suc b) (omega arith) (omega (arith, size)),
          )
        ]
        | inr (u, e) ↦ elim (get_or-remove_at j b ts) [
          | inl (v, f) ↦ absurd (omega arith)
          | inr (v, f) ↦ omega (
            arith,
            same_low e,
            same_low f,
            s.strict (suc a) (suc b) (omega arith) (omega (arith, size)),
          )
        ]
      ];
    }

pub verdict_overlap :
    (it jt : Transition)
    → verdict it jt ≡ overlap
    → (it.dstuid ≡ jt.dstuid) × (it.lowin ≤ jt.lowin) × (jt.lowin ≤ it.highin)
unfolding verdict
verdict_overlap it jt h = ground arith

pub verdict_adjacent :
    (it jt : Transition)
    → verdict it jt ≡ adjacent
    → (it.dstuid ≡ jt.dstuid) × (jt.lowin ≡ it.highin + 1)
unfolding verdict
verdict_adjacent it jt h = ground arith

get_or-default :
    {A : Type 0} (xs : List A) (i : ℕ) (d e : A) → i < length xs → get_or xs i d ≡ get_or xs i e
get_or-default [] i d e lt = elim lt [ ]
get_or-default (x ∷ xs) zero d e lt = refl
get_or-default (x ∷ xs) (suc i) d e lt = get_or-default xs i d e (omega arith)

module _ ⦃m : Memory Transition⦄ where
  -- the same transitions by what they lead to, sorted again
  pub record Same (a b : RArray Transition) : Type 0 where
    pub valid : IsValid b
    pub sorted : AreSorted (contents b)
    pub leads : (c d : ℕ) → Moves (contents b) c d ↔ Moves (contents a) c d
    pub normal : IsNormal (contents a) → IsNormal (contents b)

  pub size_of : (a : RArray Transition) → IsValid a → length (contents a) ≡ a.len
  size_of a h = omega (arith, h.fits, length-take a.len a.data_)

  pub slot_of :
      (a : RArray Transition) (i : ℕ) → IsValid a → i < a.len → slot a i ≡ trans_at (contents a) i
  slot_of a i h lt =
      get_or-default a.data_ i m.blank blank (omega (arith, h.fits))
      ∙ sym (get_or-take a.len i a.data_ blank lt)

  pub contents-write :
      (a : RArray Transition) (i : ℕ) (t : Transition)
      → contents (exist_replace a i (some t)) ≡ set (contents a) i t
  unfolding exist_replace
  contents-write a i t = take-set_lt a.len i a.data_ t

  pub contents-delete :
      (a : RArray Transition) (j : ℕ)
      → IsValid a
      → j < a.len
      → contents (delete a j) ≡ remove_at j (contents a)
  contents-delete a j h lt = (delete_lem a j h).0 ∙ rw (lt→ltb j a.len lt) refl
