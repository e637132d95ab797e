-- ===== src/Rvm/CodeMap.antt =====
-- rvm/rvmcodemap.c: the labels of generated code, found by their index or their name. A `long` is a
-- 64-bit word, negative from 2 ^ 63 on. A name is its bytes, and none is the null pointer, which is
-- looked up as the empty name.
pub mod Add
pub mod Resolve
use rpatk.Base.{
  ℕ, zero, suc, ◌+◌, ◌-◌, ◌%◌, ◌^◌, Bool, true, false, Option, none, some, List, [], ◌∷◌, ◌++◌,
  length, get_elem?, set, leb, ◌==◌, if◌then◌else◌,
}
use rpatk.RHash.{Key, RHash, create, insert, removeall, lookup_index}
use rpatk.RHash.Names.{rstrequal, rstrhash}

pub data LabelKind : Type 0 where
  offset pointer invalid : LabelKind

pub record Label : Type 0 where
  pub kind : LabelKind
  pub base : ℕ
  pub value : ℕ
  pub name : Option (List ℕ)

-- zeroed memory
abbrev pub blank_label : Label
blank_label = record { kind = offset; base = 0; value = 0; name = none }

instance abbrev pub name_key : Key (List ℕ)
name_key = record { equal = rstrequal; hash = rstrhash }

pub record CodeMap : Type 0 where
  pub labels : List Label
  pub hash : RHash (List ℕ)

abbrev pub is_negative : ℕ → Bool
is_negative i = leb (2 ^ 63) i

-- `(ruword)-1`
abbrev pub minus_one : ℕ
minus_one = 2 ^ 64 - 1

unfoldable pub codemap_create : CodeMap
codemap_create = record { labels = []; hash = create 5 }

unfoldable pub codemap_clear : CodeMap → CodeMap
codemap_clear m = record { labels = []; hash = removeall m.hash }

-- the bytes that a lookup compares
abbrev pub bytes_of : Option (List ℕ) → List ℕ
bytes_of none = []
bytes_of (some name) = name

unfoldable pub label : CodeMap → ℕ → Option Label
label m i = if is_negative i then none else get_elem? m.labels i

unfoldable pub lookup : CodeMap → Option (List ℕ) → ℕ
lookup m name = lookup_index m.hash (bytes_of name)

hash_name : RHash (List ℕ) → Option (List ℕ) → ℕ → RHash (List ℕ)
hash_name h none i = h
hash_name h (some name) i = insert h name i

-- `rvm_codemap_add`
unfoldable pub add_label : CodeMap → Option (List ℕ) → CodeMap × ℕ
unfolding hash_name
add_label m name =
    let i = length m.labels in
    if is_negative (lookup m name)
    then (
      record {
        labels = m.labels ++ record blank_label { name = name } ∷ [];
        hash = hash_name m.hash name i;
      },
      i,
    )
    else (m, lookup m name)

unfoldable pub setoffset : ℕ → ℕ → Label → Label
setoffset base offset_ l = record l { base = base; value = offset_; kind = offset }

unfoldable pub setpointer : ℕ → Label → Label
setpointer ptr l = record l { base = 0; value = ptr; kind = pointer }

unfoldable pub setinvalid : Label → Label
setinvalid l = record l { base = 0; value = 0; kind = invalid }

-- what stands behind `if (label)`
unfoldable pub update : (Label → Label) → CodeMap × ℕ → CodeMap × ℕ
update f (m, i) = elim (label m i) [
  | none ↦ (m, i)
  | some l ↦ (record m { labels = set m.labels i (f l) }, i)
]

unfoldable pub addoffset : CodeMap → Option (List ℕ) → ℕ → ℕ → CodeMap × ℕ
addoffset m name base offset_ = update (setoffset base offset_) (add_label m name)

unfoldable pub addpointer : CodeMap → Option (List ℕ) → ℕ → CodeMap × ℕ
addpointer m name ptr = update (setpointer ptr) (add_label m name)

unfoldable pub invalid_add : CodeMap → Option (List ℕ) → CodeMap × ℕ
invalid_add m name = update setinvalid (add_label m name)

abbrev pub is_invalid : LabelKind → Bool
is_invalid invalid = true
is_invalid offset = false
is_invalid pointer = false

unfoldable pub validindex : CodeMap → ℕ → Bool
validindex m i = elim (label m i) [
  | none ↦ false
  | some l ↦ if is_invalid l.kind then false else true
]

unfoldable pub lastlabel : CodeMap → ℕ
lastlabel m = (length m.labels + minus_one) % 2 ^ 64

unfoldable pub lookupadd : CodeMap → Option (List ℕ) → CodeMap × ℕ
lookupadd m name = if is_negative (lookup m name) then invalid_add m name else (m, lookup m name)

-- `rvm_codemap_resolve`, with the label that it reports; `none` means that the fuel ran out
plus_base : ℕ → Option (ℕ × Option ℕ) → Option (ℕ × Option ℕ)
plus_base value none = none
plus_base value (some (base, err)) =
    if base == minus_one then some (minus_one, err) else some ((base + value) % 2 ^ 64, err)

unfoldable pub resolve : ℕ → CodeMap → ℕ → Option (ℕ × Option ℕ)
unfolding plus_base
resolve zero m i = none
resolve (suc fuel) m i = elim (label m i) [
  | none ↦ some (0, none)
  | some l ↦ elim l.kind [
    | pointer ↦ some (l.value, none)
    | offset ↦ plus_base l.value (resolve fuel m l.base)
    | invalid ↦ some (minus_one, some i)
  ]
]
