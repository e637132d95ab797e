-- ===== src/Rex/NfaSim/Run.antt =====
-- `rex_nfasimulator_start` and `rex_nfasimulator_run`: the states after a text are those that walks
-- over its characters reach.
use rpatk.Base.{
  ℕ, zero, suc, ◌<◌, ◌≡◌, ◌⊎◌, ◌↔◌, inl, inr, refl, ◌∙◌, true, false, Bool-cases, some, List, [],
  ◌∷◌, length, arith, if◌then◌else◌, ◌==◌, List-cases, drop, length-drop, ==→ne,
}
use mathlib.Core.Path.{subst}
use rpatk.Utf.{utf8_mbtowc}
use rpatk.Utf.Utf8.{mbtowc_advance}
use rpatk.Rex.Transition.Moves.{Moves}
use rpatk.Rex.Subset.{In}
use rpatk.Rex.State.{Db, state_at, IsClosed}
use rpatk.Rex.DfaConv.{set_mark}
use rpatk.Rex.DfaConv.Move.{SomeMoves}
use rpatk.Rex.NfaSim.{NfaSim, drain, start_sim, run_loop, run}
use rpatk.Rex.NfaSim.AddState.{From, addstate-Grows}
use rpatk.Rex.DfaConv.Scan.{unmarked_le}
use rpatk.Rex.NfaSim.Next.{closed-From, AfterSome, IsReady, next-Steps, false_of}

-- The states that a walk over the characters `w` reaches from a set of states.
abbrev pub Walk : Db → (ℕ → Type 0) → List ℕ → ℕ → Type 0
Walk db set [] v = set v
Walk db set (c ∷ w) v =
    Walk db (λ x. (u : ℕ) × (d : ℕ) × set u × Moves (state_at db u).trans c d × From db d x) w v

-- The characters of a text of bytes, each with its size.
unfoldable pub decode : ℕ → List ℕ → List (ℕ × ℕ)
decode zero bytes = []
decode (suc fuel) bytes =
    let wc = (utf8_mbtowc bytes).0 in
    let inc = (utf8_mbtowc bytes).1 in
    let rest = decode fuel (drop inc bytes) in if inc == 0 then [] else (wc, inc) ∷ rest

abbrev pub chars : List (ℕ × ℕ) → List ℕ
chars [] = []
chars ((wc, inc) ∷ w) = wc ∷ chars w

record DrainedPlain (us : List ℕ) (s t : NfaSim) : Type 0 where
  emptied : t.newstates ≡ []
  states : (v : ℕ) → In v t.oldstates ↔ (In v us ⊎ In v s.oldstates)
  marks : (v : ℕ) → (t.onmap v ≡ true) ↔ ((s.onmap v ≡ true) × ¬ In v us)
  count : t.count ≡ s.count
  inputsize : t.inputsize ≡ s.inputsize
  accepts : t.accepts ≡ s.accepts

drain_lem : (us : List ℕ) (s : NfaSim) → DrainedPlain us s (drain us s)
unfolding drain set_mark
drain_lem [] s = record {
  emptied = refl;
  states = λ v. (inr, λ k. ground arith);
  marks = λ v. (λ k. (k, λ z. z), λ k. k.0);
  count = refl;
  inputsize = refl;
  accepts = refl;
}
drain_lem (uid ∷ us) s =
    let s' = record s { oldstates = uid ∷ s.oldstates; onmap = set_mark s.onmap uid false } in
    let d = drain_lem us s' in
    record {
      emptied = d.emptied;
      states = λ v. ground (arith, d.states v);
      marks = λ v. ground (arith, d.marks v);
      count = d.count;
      inputsize = d.inputsize;
      accepts = d.accepts;
    }

-- The start ends within its fuel, ready, in the states that empty transitions reach from the given
-- one, with nothing counted and nothing accepted.
pub start_sim_lem :
    (db : Db) (uid : ℕ)
    → IsClosed db
    → uid < length db
    → (t : NfaSim) × (start_sim db uid ≡ some t)
      × IsReady t
      × ((v : ℕ) → In v t.oldstates ↔ From db uid v)
      × (t.accepts ≡ [])
      × (t.inputsize ≡ 0)
unfolding start_sim
start_sim_lem db uid ok lt =
    let blank_sim : NfaSim = record {
      count = 0;
      inputsize = 0;
      newstates = [];
      oldstates = [];
      accepts = [];
      onmap = λ _. false;
    } in
    let (m, ran, g, marked) =
      addstate-Grows (suc (length db)) db blank_sim uid ok refl lt
        (omega (arith, unmarked_le (length db) (λ _. false))) in
    let d = drain_lem m.newstates m in
    let on_new : (v : ℕ) → In v m.newstates ↔ (m.onmap v ≡ true) = λ v. ground (arith, g.stack v) in
    let old_empty : (v : ℕ) → ¬ In v m.oldstates = λ v k. subst (In v) g.rest.oldstates k in
    (
      drain m.newstates m,
      rw (ran, start_sim),
      record {
        clean = λ v. false_of _ (λ k. let (p, q) = (d.marks v).0 k in q ((on_new v).1 p));
        emptied = d.emptied;
      },
      λ v. (
        λ k. elim ((d.states v).0 k) [
          | inl n ↦ elim (g.sound v ((on_new v).0 n)) [ inl no_ ↦ cc | inr f ↦ f ]
          | inr o ↦ absurd (old_empty v o)
        ],
        λ f. (d.states v).1 (inl ((on_new v).1 (closed-From blank_sim m (λ _. refl) g marked f))),
      ),
      d.accepts ∙ g.rest.accepts,
      d.inputsize ∙ g.rest.inputsize,
    )

pub Walk-iff :
    (db : Db) (s t : ℕ → Type 0) (w : List ℕ) (v : ℕ)
    → ((x : ℕ) → s x ↔ t x)
    → Walk db s w v ↔ Walk db t w v
Walk-iff db s t [] v h = h v
Walk-iff db s t (c ∷ w) v h =
    Walk-iff db _ _ w v (λ x.
      (λ (u, d, k, m, f). (u, d, (h u).0 k, m, f), λ (u, d, k, m, f). (u, d, (h u).1 k, m, f)))

pub Walk-none :
    (db : Db) (s : ℕ → Type 0) (w : List ℕ) (v : ℕ) → ((x : ℕ) → ¬ s x) → ¬ Walk db s w v
Walk-none db s [] v h k = h v k
Walk-none db s (c ∷ w) v h k = Walk-none db _ w v (λ x (u, d, m, q, f). h u m) k

pub SomeMoves-In :
    (db : Db) (us : List ℕ) (c d : ℕ)
    → SomeMoves db us c d ↔ ((u : ℕ) × In u us × Moves (state_at db u).trans c d)
SomeMoves-In db [] c d = (λ k. absurd k, λ (u, k, m). absurd k)
SomeMoves-In db (x ∷ us) c d = (
  λ k. elim k [
    | inl m ↦ (x, inl refl, m)
    | inr later ↦ let (u, i, m) = (SomeMoves-In db us c d).0 later in (u, inr i, m)
  ],
  λ (u, k, m). elim k [
    | inl e ↦ inl (subst (λ y. Moves (state_at db y).trans c d) e m)
    | inr i ↦ inr ((SomeMoves-In db us c d).1 (u, i, m))
  ],
)

pub AfterSome-Walk :
    (db : Db) (us : List ℕ) (c v : ℕ)
    → AfterSome db us c v
      ↔ ((u : ℕ) × (d : ℕ) × In u us × Moves (state_at db u).trans c d × From db d v)
AfterSome-Walk db us c v = (
  λ (d, k, f). let (u, i, m) = (SomeMoves-In db us c d).0 k in (u, d, i, m, f),
  λ (u, d, i, m, f). (d, (SomeMoves-In db us c d).1 (u, i, m), f),
)

run_loop_lem :
    (fuel : ℕ) (db : Db) (s : NfaSim) (bytes : List ℕ)
    → IsClosed db
    → IsReady s
    → length bytes < fuel
    → (t : NfaSim) × (run_loop fuel db s bytes ≡ some t)
      × ((v : ℕ) → In v t.oldstates ↔ Walk db (λ x. In x s.oldstates) (chars (decode fuel bytes)) v)
unfolding run_loop decode
run_loop_lem zero db s bytes ok r lt = elim lt [ ]
run_loop_lem (suc fuel) db s bytes ok r lt =
    let wc = (utf8_mbtowc bytes).0 in
    let inc = (utf8_mbtowc bytes).1 in
    let advance = mbtowc_advance bytes in
    elim (Bool-cases (inc == 0)) [
      | inl done ↦ (s, rw (done, run_loop), λ v. rw done (λ k. k, λ k. k))
      | inr more ↦
          let (m, ran, st) = next-Steps db s wc inc ok r in
          let after : (x : ℕ)
              → In x m.oldstates ↔ (
                  (u : ℕ) × (d : ℕ) × In u s.oldstates
                  × Moves (state_at db u).trans wc d
                  × From db d x) =
            λ x. (
              (λ k. (AfterSome-Walk db s.oldstates wc x).0 ((st.states x).0 k)),
              (λ k. (st.states x).1 ((AfterSome-Walk db s.oldstates wc x).1 k)),
            ) in
          elim (List-cases m.oldstates) [
            | inl none_left ↦ (
              m,
              rw (more, run_loop, ran, none_left),
              λ v. rw more (
                λ k. absurd (subst (In v) none_left k),
                λ k. absurd (
                    Walk-none db _ (chars (decode fuel (drop inc bytes))) v
                      (λ x z. subst (In x) none_left ((after x).1 z)) k),
              ),
            )
            | inr (x, rest, e) ↦
                let smaller : length (drop inc bytes) < fuel =
                  omega (arith, length-drop inc bytes, ==→ne _ _ more) in
                let (t, runs, walks) =
                  run_loop_lem fuel db m (drop inc bytes) ok st.ready smaller in
                (
                  t,
                  rw (more, run_loop, ran, e) runs,
                  λ v. rw more (
                    λ k.
                        (Walk-iff db _ _ (chars (decode fuel (drop inc bytes))) v after).0
                          ((walks v).0 k),
                    λ k.
                        (walks v).1
                          ((Walk-iff db _ _ (chars (decode fuel (drop inc bytes))) v after).1 k),
                  ),
                )
          ]
    ]

-- A run over a text ends within its fuel. The states that it ends in are exactly those that the
-- walks over the characters of the text reach from the given state, by transitions and by empty
-- transitions: for a database whose transitions lead to states of it, and a state of it.
pub run-Walk :
    (db : Db) (uid : ℕ) (bytes : List ℕ)
    → IsClosed db
    → uid < length db
    → (t : NfaSim) × (run db uid bytes ≡ some t)
      × ((v : ℕ)
          → In v t.oldstates ↔ Walk db (From db uid) (chars (decode (suc (length bytes)) bytes)) v)
unfolding run
run-Walk db uid bytes ok lt =
    let (s, started, ready, states, _, _) = start_sim_lem db uid ok lt in
    let (t, runs, walks) = run_loop_lem (suc (length bytes)) db s bytes ok ready (omega arith) in
    (
      t,
      rw (started, run) runs,
      λ v. (
        λ k.
            (Walk-iff db _ _ (chars (decode (suc (length bytes)) bytes)) v states).0
              ((walks v).0 k),
        λ k.
            (walks v).1
              ((Walk-iff db _ _ (chars (decode (suc (length bytes)) bytes)) v states).1 k),
      ),
    )
