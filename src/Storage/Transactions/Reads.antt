-- ===== src/Storage/Transactions/Reads.antt =====
-- What a transaction of nova-storage/src/txn.rs reads.
use nova_runtime.Base.{
  ℕ, ◌≡◌, ◌≢◌, ◌∙◌, refl, sym, ap, Bool, List, [], ◌∷◌, ◌++◌, Option, none, some, Bool-cases, inl,
  inr, if◌then◌else◌, ◌==◌, nat_eq, list_eq, Result, ok, err, ok_inj, or_else,
}
use mathlib.Core.Path.{subst}
use nova_runtime.Base.Assoc.{
  Assoc, get, insert, remove, get-insert, get-remove, get-insert_self, get-insert_ne,
}
use nova_runtime.Storage.Transactions.{
  Key, Value, Transaction, TransactionManager, TransactionError, inactive, is_active, push_write,
  register_in, register_write, first_write, mark_committed, read_in, read_through, snapshot_read,
  commit, rollback, get_txn,
}

first_write-append :
    (key : Key) (ws vs : List (Key × Option Value))
    → first_write key (ws ++ vs) ≡ or_else (first_write key ws) (first_write key vs)
unfolding first_write
first_write-append key [] vs = refl
first_write-append key (w ∷ ws) vs = elim (Bool-cases (w.0 == key)) [
  | inl h ↦ rw h refl
  | inr h ↦ rw h (first_write-append key ws vs)
]

snapshot_read-some :
    (id : ℕ) (key : Key) (store : Key → Result TransactionError (Option Value))
    (tm : TransactionManager) (txn : Transaction)
    → get id tm.active_txns ≡ some txn
    → snapshot_read id key store tm ≡ read_through (first_write key txn.write_set) (store key)
unfolding snapshot_read
snapshot_read-some id key store tm txn h = ap (λ (o : Option Transaction). read_in id key store o) h

register_in-ok :
    (id : ℕ) (key : Key) (value : Option Value) (tm after : TransactionManager)
    (o : Option Transaction)
    → register_in id key value tm o ≡ ok after
    → (txn : Transaction) × (o ≡ some txn)
      × (record tm { active_txns = insert id (push_write key value txn) tm.active_txns } ≡ after)
register_in-ok id key value tm after none h = cc
register_in-ok id key value tm after (some txn) h = elim (Bool-cases (is_active txn.status)) [
  | inl e ↦ (
    txn,
    refl,
    ok_inj (
        subst
          (λ (b : Bool).
            ◌≡◌ {A = Result TransactionError TransactionManager}
              (if b
                then ok (record tm {
                  active_txns = insert id (push_write key value txn) tm.active_txns;
                })
                else err inactive)
              (ok after))
          e h),
  )
  | inr e ↦ absurd (cc (e, h))
]

first_write-one :
    (key written : Key) (value : Option Value)
    → first_write key ((written, value) ∷ []) ≡ (if written == key then some value else none)
unfolding first_write
first_write-one key written value = refl

-- After a successful write of a transaction, a read of any key by that transaction gives the first
-- write of the key that it had registered before, else the new value if the key is the one just
-- written, else what the store gives.
pub snapshot_read-register_write :
    (id : ℕ) (key written : Key) (value : Option Value)
    (store : Key → Result TransactionError (Option Value)) (tm after : TransactionManager)
    → register_write id written value tm ≡ ok after
    → (txn : Transaction) × (get_txn id tm ≡ some txn)
      × (snapshot_read id key store after
          ≡ read_through
              (or_else
                (first_write key txn.write_set)
                (if written == key then some value else none))
              (store key))
unfolding register_write get_txn
snapshot_read-register_write id key written value store tm after h =
    let (txn, found, made) = register_in-ok id written value tm after (get id tm.active_txns) h in
    let txn' = push_write written value txn in
    let there : get id after.active_txns ≡ some txn' =
      ap (λ (t : TransactionManager). get id t.active_txns) (sym made)
      ∙ get-insert_self id txn' tm.active_txns in
    (
      txn,
      found,
      snapshot_read-some id key store after txn' there
          ∙ ap (λ (o : Option (Option Value)). read_through o (store key))
              (first_write-append key txn.write_set ((written, value) ∷ [])
                ∙ ap (λ (o : Option (Option Value)). or_else (first_write key txn.write_set) o)
                    (first_write-one key written value)),
    )

remove-mark_committed :
    (id other : ℕ) (txns : Assoc ℕ Transaction) (o : Option Transaction)
    → get other (remove id (mark_committed id txns o)) ≡ get other (remove id txns)
remove-mark_committed id other txns none = refl
remove-mark_committed id other txns (some txn) =
    rw
      (get-remove id other (insert id _ txns), get-remove id other txns, get-insert id other _ txns)
      (elim (Bool-cases (id == other)) [ inl h ↦ rw h refl | inr h ↦ rw h refl ])

-- Committing and rolling back both end the one transaction, with all that it wrote, and leave
-- every other as it was.
pub get_txn-commit :
    (id other : ℕ) (tm : TransactionManager)
    → (get_txn other (commit id tm) ≡ (if id == other then none else get_txn other tm))
      × (get_txn other (rollback id tm) ≡ (if id == other then none else get_txn other tm))
unfolding get_txn commit rollback
get_txn-commit id other tm = (
  remove-mark_committed id other tm.active_txns (get id tm.active_txns)
      ∙ get-remove id other tm.active_txns,
  get-remove id other tm.active_txns,
)

-- A successful write leaves every other transaction as it was.
pub get_txn-register_write :
    (id other : ℕ) (key : Key) (value : Option Value) (tm after : TransactionManager)
    → register_write id key value tm ≡ ok after
    → id ≢ other
    → get_txn other after ≡ get_txn other tm
unfolding get_txn register_write
get_txn-register_write id other key value tm after h ne =
    let (txn, found, made) = register_in-ok id key value tm after (get id tm.active_txns) h in
    ap (λ (t : TransactionManager). get other t.active_txns) (sym made)
    ∙ get-insert_ne id other (push_write key value txn) tm.active_txns ne
