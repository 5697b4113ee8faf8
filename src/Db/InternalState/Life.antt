-- ===== src/Db/InternalState/Life.antt =====
-- The state of the database over the life of the program: a bulk connection that is not closed is
-- found at the next start.
use organic_blockbook.Prelude.{
  ℕ, ◌≡◌, ◌≢◌, refl, ◌∙◌, arith, Bool, true, false, ◌==◌, List, [], none, some, length, if-cases,
  inl, inr,
}
use organic_blockbook.Prelude.Bytes.{Bytes, bytes_eq}
use organic_blockbook.Prelude.Options.{Result, ok, err, Result-cases}
use organic_blockbook.Common.InternalState.{db_state_open, db_state_inconsistent, InternalState}
use organic_blockbook.Db.InternalState.{
  StateJson, StateError, match_columns, with_coin, unpack_state, load_internal_state, Kept,
  store_state, set_inconsistent_state, close, start_up,
}

-- A state is always packed, into a text that is not empty, and what is read back is a state with the
-- same state of the database. Its texts may differ, where they are not UTF-8.
pub record StateJsonLaws (json : StateJson) : Type 0 where
  pub marshals : (is : InternalState) → (b : Bytes) × (json.marshal is ≡ some b)
  pub unmarshal-marshal :
      (is : InternalState) (b : Bytes)
      → json.marshal is ≡ some b
      → (is' : InternalState) × (json.unmarshal b ≡ some is') × (is'.db_state ≡ is.db_state)
  pub some_text : (is : InternalState) (b : Bytes) → json.marshal is ≡ some b → length b ≢ 0

module _ (json : StateJson) (cf_names : List Bytes) where
  -- The program runs, with a bulk connection or without, or it has ended and left the database.
  pub data Life : Type 0 where
    running : Kept json cf_names → Bool → Life
    ended : Bytes → Bool → Life

  -- The program starts on a database that is not refused; a bulk connection is begun or closed; the
  -- state is stored; something of it but the state of the database changes; the program is killed;
  -- or it closes the database.
  pub data LifeStep : Life → Life → Type 0 where
    started :
        (coin disk : Bytes) (bulk : Bool) (k : Kept json cf_names)
        → start_up json cf_names coin disk ≡ some k
        → LifeStep (ended disk bulk) (running k false)
    bulk_begun :
        (k : Kept json cf_names)
        → LifeStep (running k false) (running (set_inconsistent_state json cf_names true k) true)
    bulk_closed :
        (k : Kept json cf_names)
        → LifeStep (running k true) (running (set_inconsistent_state json cf_names false k) false)
    state_stored :
        (k : Kept json cf_names) (bulk : Bool)
        → LifeStep (running k bulk) (running (store_state json cf_names k) bulk)
    state_changed :
        (k : Kept json cf_names) (bulk : Bool) (is : InternalState)
        → is.db_state ≡ k.memory.db_state
        → LifeStep (running k bulk) (running (record k { memory = is }) bulk)
    killed : (k : Kept json cf_names) (bulk : Bool) → LifeStep (running k bulk) (ended k.disk bulk)
    closed :
        (k : Kept json cf_names) (bulk : Bool)
        → LifeStep (running k bulk) (ended (close json cf_names k).disk bulk)

  pub data Lived : Life → Type 0 where
    fresh : Lived (ended [] false)
    step : (l l' : Life) → Lived l → LifeStep l l' → Lived l'

  -- The database holds a state that is marked as inconsistent.
  abbrev IsMarked : Bytes → Type 0
  IsMarked disk =
      (is : InternalState) × (json.marshal is ≡ some disk) × (is.db_state ≡ db_state_inconsistent)

  -- While a bulk connection is open, memory and database are marked, and so is the database that it
  -- leaves.
  abbrev IsGuarded : Life → Type 0
  IsGuarded (running k true) = (k.memory.db_state ≡ db_state_inconsistent) × IsMarked k.disk
  IsGuarded (running k false) = Unit
  IsGuarded (ended disk true) = IsMarked disk
  IsGuarded (ended disk false) = Unit

  module _ (laws : StateJsonLaws json) where
    store_state-IsMarked :
        (k : Kept json cf_names)
        → k.memory.db_state ≡ db_state_inconsistent
        → ((store_state json cf_names k).memory.db_state ≡ db_state_inconsistent)
          × IsMarked (store_state json cf_names k).disk
    unfolding store_state
    store_state-IsMarked k h =
        let (b, e) = laws.marshals k.memory in rw (e, store_state) (h, (k.memory, e, h))

    close-marked :
        (k : Kept json cf_names)
        → k.memory.db_state ≡ db_state_inconsistent
        → close json cf_names k ≡ k
    unfolding close
    close-marked k h =
        let shut : (k.memory.db_state == db_state_open) ≡ false = ground (arith, h) in rw shut

    LifeStep-IsGuarded : (l l' : Life) → LifeStep l l' → IsGuarded l → IsGuarded l'
    unfolding set_inconsistent_state
    LifeStep-IsGuarded _ _ (started coin disk bulk k e) h = tt
    LifeStep-IsGuarded _ _ (bulk_begun k) h =
        store_state-IsMarked
          (record k { memory = record k.memory { db_state = db_state_inconsistent } }) refl
    LifeStep-IsGuarded _ _ (bulk_closed k) h = tt
    LifeStep-IsGuarded _ _ (state_stored k true) (h, m) = store_state-IsMarked k h
    LifeStep-IsGuarded _ _ (state_stored k false) h = tt
    LifeStep-IsGuarded _ _ (state_changed k true is e) (h, m) = (e ∙ h, m)
    LifeStep-IsGuarded _ _ (state_changed k false is e) h = tt
    LifeStep-IsGuarded _ _ (killed k true) (h, m) = m
    LifeStep-IsGuarded _ _ (killed k false) h = tt
    LifeStep-IsGuarded _ _ (closed k true) (h, m) = rw (close-marked k h) m
    LifeStep-IsGuarded _ _ (closed k false) h = tt

    Lived-IsGuarded : (l : Life) → Lived l → IsGuarded l
    Lived-IsGuarded _ fresh = tt
    Lived-IsGuarded _ (step l l' lived st) = LifeStep-IsGuarded l l' st (Lived-IsGuarded l lived)

    abbrev HasState : ℕ → Result StateError InternalState → Type 0
    HasState d (ok is) = is.db_state ≡ d
    HasState d (err e) = Unit

    with_coin-HasState :
        (coin : Bytes) (is : InternalState) → HasState is.db_state (with_coin coin is)
    unfolding with_coin
    with_coin-HasState coin is =
        if-cases (HasState is.db_state) (bytes_eq is.coin []) _ _ (λ e. refl)
          (λ e. if-cases (HasState is.db_state) (bytes_eq is.coin coin) _ _ (λ e. refl) (λ e. tt))

    unpack_state-marked :
        (coin disk : Bytes) (is : InternalState)
        → json.marshal is ≡ some disk
        → (is' : InternalState) × (unpack_state json cf_names coin disk ≡ with_coin coin is')
          × (is'.db_state ≡ is.db_state)
    unfolding unpack_state
    unpack_state-marked coin disk is e =
        let some_data : (length disk == 0) ≡ false = ground (arith, laws.some_text is disk e) in
        let (is', read, same) = laws.unmarshal-marshal is disk e in
        (is', rw (some_data, read), same)

    IsMarked-refused : (coin disk : Bytes) → IsMarked disk → start_up json cf_names coin disk ≡ none
    unfolding start_up load_internal_state
    IsMarked-refused coin disk (is₀, e, h₀) =
        let (is, unpacked, kept) = unpack_state-marked coin disk is₀ e in
        let h : is.db_state ≡ db_state_inconsistent = kept ∙ h₀ in
        let same = with_coin-HasState coin is in
        elim (Result-cases (with_coin coin is)) [
          | inr (x, bad) ↦
              let refused : unpack_state json cf_names coin disk ≡ err x = unpacked ∙ bad in
              rw (refused, start_up)
          | inl (is', good) ↦
              let loaded : unpack_state json cf_names coin disk ≡ ok is' = unpacked ∙ good in
              elim (Result-cases (match_columns cf_names is'.db_columns)) [
                | inr (x, bad) ↦ rw (loaded, start_up, bad)
                | inl (nc, fits) ↦
                    let state : is'.db_state ≡ db_state_inconsistent = (rw good at same) ∙ h in
                    let marked : (is'.db_state == db_state_inconsistent) ≡ true =
                      ground (arith, state) in
                    rw (loaded, start_up, fits, marked)
              ]
        ]

    -- Whenever the program ends while a bulk connection is open, be it killed or closed in order, the
    -- next start refuses the database, for whatever coin it is; the state may have been stored and
    -- changed at any time but for the state of the database.
    pub Lived-refused :
        (disk coin : Bytes) → Lived (ended disk true) → start_up json cf_names coin disk ≡ none
    Lived-refused disk coin lived =
        IsMarked-refused coin disk (Lived-IsGuarded (ended disk true) lived)
