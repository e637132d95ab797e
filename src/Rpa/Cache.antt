-- ===== src/Rpa/Cache.antt =====
-- rpa/rpacache.c: what rules matched at which place of the input, in 1024 slots of which each holds
-- one result. A `long` is a 64-bit word, negative from 2 ^ 63 on.
pub mod Stored
pub mod Lookup
mod Tests
use Prim.Native.Nat.{bit_and, bit_xor}
use rpatk.Base.{
  ℕ, zero, suc, ◌+◌, ◌*◌, ◌/◌, ◌%◌, ◌^◌, ◌&&◌, Bool, true, false, not, Option, none, some, ltb,
  ◌==◌, if◌then◌else◌,
}
use rpatk.RArray.{Memory, RArray, slot, create, setlength, add}

-- RPA_MCACHE_BUCKET
unfoldable pub bucket_of : ℕ → ℕ → ℕ
bucket_of top ruleid = bit_and (bit_xor (top * 8 % 2 ^ 64) (ruleid / 32)) 1023

abbrev pub is_positive : ℕ → Bool
is_positive w = ltb 0 w && ltb w (2 ^ 63)

pub record Entry (A : Type 0) : Type 0 where
  pub ruleid : ℕ
  pub top : ℕ
  pub ret : ℕ
  pub startrec : ℕ
  pub recsize : ℕ
  pub serial : ℕ
  pub records : RArray A

-- the slots as a function of their index
pub record Cache (A : Type 0) : Type 0 where
  pub entry : ℕ → Entry A
  pub hit : ℕ
  pub disabled : Bool
  pub serial : ℕ

module _ {A : Type 0} ⦃m : Memory A⦄ where
  unfoldable pub cache_create : Cache A
  cache_create = record {
    entry = λ i. record {
      ruleid = 0;
      top = 0;
      ret = 0;
      startrec = 0;
      recsize = 0;
      serial = 0;
      records = create;
    };
    hit = 0;
    disabled = false;
    serial = 0;
  }

  unfoldable pub invalidate : Cache A → Cache A
  invalidate c = record c { serial = (c.serial + 1) % 2 ^ 64 }

  unfoldable pub disable : Cache A → Bool → Cache A
  disable c off = record c { disabled = off }

  -- the loop over the records, by the rounds left
  unfoldable pub copy_records : ℕ → RArray A → ℕ → RArray A → RArray A
  copy_records zero records at out = out
  copy_records (suc n) records at out =
      copy_records n records (suc at) (add out (some (slot records at))).0

  -- `size` is a `long`: the loop does nothing for a negative one
  filled : Option (RArray A) → ℕ → ℕ → RArray A → RArray A
  filled none startrec size out = setlength out 0
  filled (some records) startrec size out =
      copy_records (if is_positive size then size else 0) records startrec (setlength out 0)

  unfoldable pub put_at : (ℕ → Entry A) → ℕ → Entry A → ℕ → Entry A
  put_at entries i e j = if j == i then e else entries j

  -- whether `rpa_cache_set` returns without a change
  abbrev pub skips : Cache A → ℕ → ℕ → Bool
  skips c ret size =
      if c.disabled then true else is_positive ret && (is_positive size && ltb 128 size)

  unfoldable pub new_entry : Cache A → ℕ → ℕ → ℕ → Option (RArray A) → ℕ → ℕ → Entry A
  unfolding filled
  new_entry c top ruleid ret records startrec size = record {
    ruleid = ruleid;
    top = top;
    ret = ret;
    startrec = startrec;
    recsize = size;
    serial = c.serial;
    records = filled records startrec size (c.entry (bucket_of top ruleid)).records;
  }

  unfoldable pub cache_set : Cache A → ℕ → ℕ → ℕ → Option (RArray A) → ℕ → ℕ → Cache A
  cache_set c top ruleid ret records startrec size = if skips c ret size then c else record c {
    entry =
        put_at c.entry (bucket_of top ruleid) (new_entry c top ruleid ret records startrec size);
  }

  -- the test of a slot
  abbrev pub is_hit : Cache A → Entry A → ℕ → ℕ → Bool
  is_hit c e top ruleid = (e.serial == c.serial) && ((e.ruleid == ruleid) && (e.top == top))

  unfoldable pub cache_lookup : Cache A → ℕ → ℕ → Cache A × Option (Entry A)
  cache_lookup c top ruleid =
      let e = c.entry (bucket_of top ruleid) in
      if c.disabled
      then (c, none)
      else if is_hit c e top ruleid
      then (record c { hit = c.hit + 1 }, some e)
      else (c, none)
