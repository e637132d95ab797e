-- ===== src/Rex/Compiler.antt =====
-- rex/rexcompiler.c: what the compiler of regular expressions does to the database where an
-- expression is a character or a dot, and at its end. The rest of the database's changes are the
-- operators of Rex/Fragment, which it calls.
pub mod Plain
pub mod OneState
pub mod Single
pub mod Ends
pub mod Runs
pub mod Longest
pub mod Tests
use rpatk.Base.{ℕ, suc, ◌-◌, ◌+◌, ◌^◌, List, [], ◌∷◌, set}
use rpatk.Rex.Transition.{char_max}
use rpatk.Rex.State.{
  Db, State, StateType, none_state, start, accept, createstate, state_at, addtransition,
  addtransition_e, setuserdata,
}
use rpatk.Rex.Fragment.{Fragment, nowhere, fragment, cat}

-- `rex_compiler_factor` on a character that is not a bracket, a parenthesis or a dot
unfoldable pub factor_char : Db → ℕ → Db × Fragment
factor_char db token =
    let (db', uid) = createstate db none_state in
    let db'' = set db' uid (addtransition (state_at db' uid) token token nowhere) in
    (db'', fragment db'' uid)

-- `rex_compiler_factor` on a dot; a line feed is the character 10
unfoldable pub factor_dot : Db → Db × Fragment
factor_dot db =
    let (db', uid) = createstate db none_state in
    let s = addtransition (state_at db' uid) 0 (10 - 1) nowhere in
    let db'' = set db' uid (addtransition s (10 + 1) char_max nowhere) in (db'', fragment db'' uid)

-- `rex_compiler_qfactor` on `{0}`, after the expression's states are gone
unfoldable pub qfactor_zero : Db → Db × Fragment
qfactor_zero db =
    let (db', uid) = createstate db none_state in
    let db'' = set db' uid (addtransition_e (state_at db' uid) nowhere) in (db'', fragment db'' uid)

-- `rex_compiler_expression` once the fragment of the expression is there: the new database and the
-- number of the start state
unfoldable pub expression_end : Db → Fragment → ℕ → Db × ℕ
expression_end db frag₁ userdata =
    let (db₁, uid) = createstate db accept in
    let frag₂ = fragment db₁ uid in
    let db₂ = set db₁ uid (setuserdata (state_at db₁ uid) userdata) in
    let (db₃, frag) = cat db₂ frag₁ frag₂ in
    (set db₃ frag.sstate (record (state_at db₃ frag.sstate) { kind = start }), frag.sstate)
