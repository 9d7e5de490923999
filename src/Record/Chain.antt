-- ===== src/Record/Chain.antt =====
-- Chain, Author and the two ways to append (record.go). A method returns the new chain. Time is an
-- argument.
pub mod Linked
pub mod Converge
pub mod Tamper
use mathlib.Core.List.{append_assoc}
use netherchat.Base.{
  ℕ, ◌%◌, ◌^◌, Bool, false, not, Option, none, some, List, [], ◌∷◌, ◌++◌, Text, ◌==◌, eqb, length,
  last_or, replicate, Result, Checked, ok, err, ◌>>=◌, ◌>>◌, reject_if, or_fail,
}
use netherchat.Base.Int.{ℤ}
use netherchat.Record.Library.{Library}
use netherchat.Record.Entry.{Entry, Link, EntryError, canonical, hash, verify_entry}

-- 32 zero bytes
abbrev pub zero_hash : Text
zero_hash = replicate 32 0

pub record Chain : Type 0 where
  pub entries : List Entry

-- NewChain
abbrev pub empty : Chain
empty = record { entries = [] }

-- uint64(n)
abbrev pub u64 : ℕ → ℕ
u64 n = n % 2 ^ 64

unfoldable pub len : Chain → ℕ
len c = length c.entries

-- Chain.Reset
unfoldable pub reset : Chain → Chain
reset c = record c { entries = [] }

-- `sign` fails where an ssh-agent does.
pub record Author : Type 0 where
  pub id : Text
  pub name : Text
  pub key : Text
  pub sign : Text → Option Text

pub record EntrySpec : Type 0 where
  pub kind : Text
  pub actionee : Text
  pub body : Text
  pub schema : Text
  pub schema_ver : Text
  pub links : List Link

pub data ChainError : Type 0 where
  sign_failed : ChainError
  bad_entry : EntryError → ChainError
  out_of_order : ℕ → ℕ → ChainError
  fork : ChainError

abbrev pub wrap : Checked EntryError → Checked ChainError
wrap (ok u) = ok u
wrap (err e) = err (bad_entry e)

module _ ⦃lib : Library⦄ where
  -- headOf (sealer.go) and Chain.Head
  unfoldable pub head_of : List Entry → Text
  head_of [] = zero_hash
  head_of (e ∷ es) = hash (last_or e es)

  unfoldable pub head : Chain → Text
  head c = head_of c.entries

  -- The entry that Append signs.
  unfoldable pub draft : Chain → Author → ℤ → EntrySpec → Entry
  draft c a now spec = record {
    seq = u64 (length c.entries);
    ts = now;
    author_id = a.id;
    author_name = a.name;
    author_key = a.key;
    kind = spec.kind;
    actionee = spec.actionee;
    body = spec.body;
    prev_hash = head c;
    sig = [];
    schema = spec.schema;
    schema_ver = spec.schema_ver;
    links = spec.links;
    replayed = false;
  }

  -- Append
  unfoldable pub append : Chain → Author → ℤ → EntrySpec → Result ChainError (Chain × Entry)
  append c a now spec = do
    sig ← or_fail (a.sign (canonical (draft c a now spec))) sign_failed
    let e = record (draft c a now spec) { sig = sig }
    ok (record c { entries = c.entries ++ e ∷ [] }, e)

  -- AppendNew
  unfoldable pub append_new :
      Chain → Author → ℤ → Text → Text → Text → Result ChainError (Chain × Entry)
  append_new c a now kind actionee body = append c a now (record {
    kind = kind;
    actionee = actionee;
    body = body;
    schema = [];
    schema_ver = [];
    links = [];
  })

  -- AppendRemote
  unfoldable pub append_remote : Chain → Entry → Result ChainError Chain
  append_remote c e = do
    wrap (verify_entry e)
    reject_if (not (eqb e.seq (u64 (length c.entries)))) (out_of_order e.seq (length c.entries))
    reject_if (not (e.prev_hash == head c)) fork
    ok (record c { entries = c.entries ++ e ∷ [] })
