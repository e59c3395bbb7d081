-- ===== src/Persistence/Opening.antt =====
-- crates/persistence/src/database.rs: opening the database with the key in the credential store.
-- `EncryptedDatabase::open` (SQLCipher), the random source and the store of the operating system are
-- parameters; the store holds one key at most.
use bx_ssh.Common.{
  ◌≡◌, ◌⊎◌, inl, inr, refl, sym, subst, Bool, true, false, Option, none, some, Result, ok, err, ap,
  arith, Result-cases, Option-cases,
}
use bx_ssh.Persistence.Error.{
  PersistenceError, database_key_missing, database_missing_for_stored_key,
}

-- What the credential store may refuse, and what the other parts answer.
pub record Platform (E K D : Type 0) : Type 0 where
  pub load_refused : Option (PersistenceError E)
  pub save_refused : Option (PersistenceError E)
  pub delete_refused : Option (PersistenceError E)
  pub generate : Result (PersistenceError E) K
  pub open_with : K → Result (PersistenceError E) D

module _ {E K D : Type 0} (platform : Platform E K D) where
  -- `Self::open(path, &key)`, with the key deleted again if it fails.
  unfoldable pub open_fresh : K → Option K × Result (PersistenceError E) D
  open_fresh key = elim (platform.open_with key) [
    | ok database ↦ (some key, ok database)
    | err open_error ↦ elim platform.delete_refused [
      | none ↦ (none, err open_error)
      | some e ↦ (some key, err e)
    ]
  ]

  unfoldable pub initialize : Option K × Result (PersistenceError E) D
  unfolding open_fresh
  initialize = elim platform.generate [
    | err e ↦ (none, err e)
    | ok key ↦ elim platform.save_refused [ some e ↦ (none, err e) | none ↦ open_fresh key ]
  ]

  -- `match (database_exists, stored_key)`.
  unfoldable pub open_matching : Bool → Option K → Option K × Result (PersistenceError E) D
  unfolding initialize
  open_matching true (some key) = (some key, platform.open_with key)
  open_matching true none = (none, err database_key_missing)
  open_matching false (some key) = (some key, err database_missing_for_stored_key)
  open_matching false none = initialize

  -- `open_or_initialize`: what the store holds afterwards, and the result.
  unfoldable pub open_or_initialize : Bool → Option K → Option K × Result (PersistenceError E) D
  unfolding open_matching
  open_or_initialize database_exists stored = elim platform.load_refused [
    | some e ↦ (stored, err e)
    | none ↦ open_matching database_exists stored
  ]

  -- An initialization opens the database with the key that it stored, or fails and leaves none,
  -- unless the store refuses to delete it.
  abbrev Initialized : Option K × Result (PersistenceError E) D → Type 0
  Initialized out =
      ((key : K) × (d : D) × (out ≡ (some key, ok d)) × (platform.open_with key ≡ ok d))
      ⊎ ((e : PersistenceError E) × (out.1 ≡ err e)
          × (platform.delete_refused ≡ none → out.0 ≡ none))

  open_fresh-Initialized : (key : K) → Initialized (open_fresh key)
  unfolding open_fresh
  open_fresh-Initialized key = elim (Result-cases (platform.open_with key)) [
    | inl (d, e) ↦ inl (key, d, rw (open_fresh, e) refl, e)
    | inr (x, e) ↦ elim (Option-cases platform.delete_refused) [
      | inl n ↦ inr (x, rw (open_fresh, e, n) refl, λ _. rw (open_fresh, e, n) refl)
      | inr (y, n) ↦ inr (y, rw (open_fresh, e, n) refl, λ t. absurd (cc (t, n)))
    ]
  ]

  initialize-Initialized : Initialized initialize
  unfolding initialize
  initialize-Initialized = elim (Result-cases platform.generate) [
    | inr (x, e) ↦ inr (x, rw (initialize, e) refl, λ _. rw (initialize, e) refl)
    | inl (key, e) ↦ elim (Option-cases platform.save_refused) [
      | inr (y, n) ↦ inr (y, rw (initialize, e, n) refl, λ _. rw (initialize, e, n) refl)
      | inl n ↦
          let same : initialize ≡ open_fresh key = ground (arith, e, n) in
          subst Initialized (sym same) (open_fresh-Initialized key)
    ]
  ]

  -- What opening does to the store: a key that was there stays; where none was there, none is left
  -- by a failure (unless the store refuses to delete it); a database that is opened is opened with
  -- the key that is in the store.
  pub record IsSafe (stored : Option K) (out : Option K × Result (PersistenceError E) D)
      : Type 0 where
    pub key_kept : (key : K) → stored ≡ some key → out.0 ≡ some key
    pub none_left :
        (e : PersistenceError E)
        → stored ≡ none
        → platform.delete_refused ≡ none
        → out.1 ≡ err e
        → out.0 ≡ none
    pub key_opens :
        (d : D) → out.1 ≡ ok d → (key : K) × (out.0 ≡ some key) × (platform.open_with key ≡ ok d)

  Initialized-IsSafe :
      (out : Option K × Result (PersistenceError E) D) → Initialized out → IsSafe none out
  Initialized-IsSafe out (inl (key, d, p, o)) = record {
    key_kept = λ k h. absurd (cc h);
    none_left = λ e _ _ h. absurd (cc (h, ap (λ q. q.1) p));
    key_opens = λ d' h. (key, ap (λ q. q.0) p, ground (arith, o, h, ap (λ q. q.1) p));
  }
  Initialized-IsSafe out (inr (e, p, n)) = record {
    key_kept = λ k h. absurd (cc h);
    none_left = λ e' _ r _. n r;
    key_opens = λ d h. absurd (cc (h, p));
  }

  -- A result that leaves the store as it was, and opens nothing but with its key.
  same_store :
      (stored : Option K) (r : Result (PersistenceError E) D)
      → ((d : D) → r ≡ ok d → (key : K) × (stored ≡ some key) × (platform.open_with key ≡ ok d))
      → IsSafe stored (stored, r)
  same_store stored r h = record { key_kept = λ k e. e; none_left = λ _ e _ _. e; key_opens = h }

  open_matching-IsSafe :
      (database_exists : Bool) (stored : Option K)
      → IsSafe stored (open_matching database_exists stored)
  unfolding open_matching
  open_matching-IsSafe true (some key) =
      same_store (some key) (platform.open_with key) (λ d h. (key, refl, h))
  open_matching-IsSafe true none = same_store none _ (λ d h. absurd (cc h))
  open_matching-IsSafe false (some key) = same_store (some key) _ (λ d h. absurd (cc h))
  open_matching-IsSafe false none = Initialized-IsSafe initialize initialize-Initialized

  -- Opening never replaces or deletes a key that is stored, leaves no key behind where it creates a
  -- database and fails (unless the store refuses to delete the key), and opens a database with the
  -- key that is then in the store.
  pub open_or_initialize-IsSafe :
      (database_exists : Bool) (stored : Option K)
      → IsSafe stored (open_or_initialize database_exists stored)
  unfolding open_or_initialize
  open_or_initialize-IsSafe database_exists stored = elim (Option-cases platform.load_refused) [
    | inl n ↦
        let same : open_or_initialize database_exists stored
            ≡ open_matching database_exists stored =
          ground (arith, n) in
        subst (IsSafe stored) (sym same) (open_matching-IsSafe database_exists stored)
    | inr (x, n) ↦
        let same : open_or_initialize database_exists stored ≡ (stored, err x) =
          ground (arith, n) in
        subst (IsSafe stored) (sym same) (same_store stored (err x) (λ d h. absurd (cc h)))
  ]
