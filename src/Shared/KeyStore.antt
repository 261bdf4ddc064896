-- ===== src/Shared/KeyStore.antt =====
-- The key pair of a service, shared/src/key_store.rs: one file, read or made. Reading and writing it
-- and the making of a pair are parameters of the call.
use infovulcan.Common.{
  ◌≡◌, refl, ap, ◌∙◌, Bool, true, false, Option, none, some, arith, if◌then◌else◌, Bytes,
}
use infovulcan.Serde.{Serde}

abbrev pub Keys : Type 0
Keys = Bytes × Bytes

-- What the calls of the system do: whether the file can be read, the pair that is generated, and what
-- a write of the file answers and leaves.
pub record System : Type 0 where
  pub can_read : Bool
  pub generated : Option Keys
  pub write : Bytes → Bool × Option Bytes

module _ (s : Serde Keys) where
  abbrev pub saved : Keys → Bool × Option Bytes → Option Keys × Option Bytes
  saved keys (true, file) = (some keys, file)
  saved keys (false, file) = (none, file)

  abbrev pub made : System → Option Keys → Option Keys × Option Bytes
  made sys none = (none, none)
  made sys (some keys) = saved keys (sys.write (s.to_vec keys))

  -- The pair, or none for an error, and the file afterwards.
  unfoldable pub load_or_generate_keypair : System → Option Bytes → Option Keys × Option Bytes
  load_or_generate_keypair sys (some bytes) =
      (if sys.can_read then s.from_slice bytes else none, some bytes)
  load_or_generate_keypair sys none = made sys sys.generated

  -- A write that succeeds leaves what was written.
  abbrev pub Writes : System → Type 0
  Writes sys = (bytes : Bytes) → (sys.write bytes).0 ≡ true → (sys.write bytes).1 ≡ some bytes

  abbrev or_keys : Keys → Option Keys → Keys
  or_keys k none = k
  or_keys k (some keys) = keys

  saved-some :
      (keys pair : Keys) (r : Bool × Option Bytes)
      → (saved keys r).0 ≡ some pair
      → (r.0 ≡ true) × (keys ≡ pair) × ((saved keys r).1 ≡ r.1)
  saved-some keys pair (true, file) h = (refl, ap (or_keys keys) h, refl)
  saved-some keys pair (false, file) h = absurd (ground (arith, h))

  reread :
      (later : System) (keys pair : Keys) (file : Option Bytes)
      → later.can_read ≡ true
      → file ≡ some (s.to_vec keys)
      → keys ≡ pair
      → load_or_generate_keypair later file ≡ (some pair, file)
  unfolding load_or_generate_keypair
  reread later keys pair file r e same =
      rw (e, r, s.from_slice-to_vec keys) (ap (λ k. (some k, some (s.to_vec keys))) same)

  read_again :
      (sys later : System) (bytes : Bytes) (pair : Keys) (t : Bool)
      → later.can_read ≡ true
      → (if t then s.from_slice bytes else none) ≡ some pair
      → load_or_generate_keypair later (some bytes) ≡ (some pair, some bytes)
  unfolding load_or_generate_keypair
  read_again sys later bytes pair true r h = rw (r, h) refl
  read_again sys later bytes pair false r h = absurd (ground (arith, h))

  made_again :
      (sys later : System) (pair : Keys) (generated : Option Keys)
      → Writes sys
      → later.can_read ≡ true
      → (made sys generated).0 ≡ some pair
      → load_or_generate_keypair later (made sys generated).1 ≡ (some pair, (made sys generated).1)
  made_again sys later pair none w r h = absurd (ground (arith, h))
  made_again sys later pair (some keys) w r h =
      let (wrote, same, kept) = saved-some keys pair (sys.write (s.to_vec keys)) h in
      reread later keys pair (made sys (some keys)).1 r (kept ∙ w (s.to_vec keys) wrote) same

  -- Where a write that succeeds leaves what was written and the file can be read: when a first call
  -- gives a pair, a second call, whatever pair would be generated by then, gives the same pair and
  -- leaves the file as it is.
  pub load_twice :
      (sys later : System) (file : Option Bytes) (pair : Keys)
      → Writes sys
      → later.can_read ≡ true
      → (load_or_generate_keypair sys file).0 ≡ some pair
      → load_or_generate_keypair later (load_or_generate_keypair sys file).1
        ≡ (some pair, (load_or_generate_keypair sys file).1)
  unfolding load_or_generate_keypair
  load_twice sys later (some bytes) pair w r h = read_again sys later bytes pair sys.can_read r h
  load_twice sys later none pair w r h = made_again sys later pair sys.generated w r h
