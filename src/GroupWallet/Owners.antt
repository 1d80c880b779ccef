-- ===== src/GroupWallet/Owners.antt =====
-- Who owns a group wallet: the members of apps/api/src/wallet/group-wallet.service.ts.
use chargev.Prelude.{
  ℕ, ◌≡◌, ◌≢◌, refl, Bool, true, false, ◌&&◌, ◌||◌, none, List, [], ◌∷◌, arith, ◌==◌, All,
}
use chargev.Prelude.Int.{ℤ}
use chargev.Table.{find_first, update, delete}
use chargev.GroupWallet.{
  GroupWallet, Member, Db, UpdateMember, is_owner, has_id, is_member, demotes, updated_member, owns,
}

abbrev pub has_owner : ℕ → List Member → Bool
has_owner g [] = false
has_owner g (m ∷ ms) = m.group_wallet_id == g && is_owner m.role || has_owner g ms

abbrev pub Unique : List Member → Type 0
Unique [] = Unit
Unique (m ∷ ms) = (find_first (is_member m.group_wallet_id m.user_id) ms ≡ none) × Unique ms

abbrev pub Owned : List Member → List GroupWallet → Type 0
Owned ms = All (λ g. has_owner g.id ms ≡ true)

-- No user is twice in a group, and each group has an owner.
pub record IsValid (db : Db) : Type 0 where
  pub unique : Unique db.members
  pub owned : Owned db.members db.groups

Owned-mono :
    (ms ns : List Member)
    → ((g : ℕ) → has_owner g ms ≡ true → has_owner g ns ≡ true)
    → (gs : List GroupWallet) → Owned ms gs
    → Owned ns gs
Owned-mono ms ns keep [] h = tt
Owned-mono ms ns keep (g ∷ gs) h = (keep g.id h.0, Owned-mono ms ns keep gs h.1)

find-delete-none :
    (g u h v : ℕ) (ms : List Member)
    → find_first (is_member g u) ms ≡ none
    → find_first (is_member g u) (delete (is_member h v) ms) ≡ none
find-delete-none g u h v [] e = refl
find-delete-none g u h v (m ∷ ms) e = ground (arith, find-delete-none g u h v ms)

pub delete-Unique : (g u : ℕ) (ms : List Member) → Unique ms → Unique (delete (is_member g u) ms)
delete-Unique g u [] h = tt
delete-Unique g u (m ∷ ms) h =
    ground
      (arith, delete-Unique g u ms h.1, find-delete-none m.group_wallet_id m.user_id g u ms h.0)

delete_absent :
    (g u : ℕ) (ms : List Member)
    → find_first (is_member g u) ms ≡ none
    → delete (is_member g u) ms ≡ ms
delete_absent g u [] e = refl
delete_absent g u (m ∷ ms) e = ground (arith, delete_absent g u ms)

-- The deletion of a member who is no owner takes no group's owner away.
has_owner-delete :
    (g u h : ℕ) (ms : List Member)
    → Unique ms
    → owns (find_first (is_member g u) ms) ≡ false
    → has_owner h (delete (is_member g u) ms) ≡ has_owner h ms
has_owner-delete g u h [] q e = refl
has_owner-delete g u h (m ∷ ms) q e =
    ground (arith, has_owner-delete g u h ms q.1, delete_absent g u ms)

module _ (f : Member → Member)
    (same_group : (m : Member) → (f m).group_wallet_id ≡ m.group_wallet_id)
    (same_user : (m : Member) → (f m).user_id ≡ m.user_id) where
  find-update-none :
      (g u h v : ℕ) (ms : List Member)
      → find_first (is_member g u) ms ≡ none
      → find_first (is_member g u) (update (is_member h v) f ms) ≡ none
  find-update-none g u h v [] e = refl
  find-update-none g u h v (m ∷ ms) e =
      ground (arith, find-update-none g u h v ms, same_group m, same_user m)

  pub update-Unique :
      (g u : ℕ) (ms : List Member) → Unique ms → Unique (update (is_member g u) f ms)
  update-Unique g u [] h = tt
  update-Unique g u (m ∷ ms) h = ground (
    arith,
    update-Unique g u ms h.1,
    find-update-none m.group_wallet_id m.user_id g u ms h.0,
    same_group m,
    same_user m,
  )

  update_absent :
      (g u : ℕ) (ms : List Member)
      → find_first (is_member g u) ms ≡ none
      → update (is_member g u) f ms ≡ ms
  update_absent g u [] e = refl
  update_absent g u (m ∷ ms) e = ground (arith, update_absent g u ms)

-- An update that demotes no owner leaves every group its owner.
has_owner-update :
    (dto : UpdateMember) (g u h : ℕ) (ms : List Member)
    → Unique ms
    → owns (find_first (is_member g u) ms) && demotes dto.role ≡ false
    → has_owner h ms ≡ true
    → has_owner h (update (is_member g u) (updated_member dto) ms) ≡ true
has_owner-update dto g u h [] q keep e = e
has_owner-update dto g u h (m ∷ ms) q keep e = ground (
  arith,
  has_owner-update dto g u h ms q.1,
  update_absent (updated_member dto) (λ x. refl) (λ x. refl) g u ms,
)

has_owner-cascade :
    (k h : ℕ) (ms : List Member)
    → h ≢ k
    → has_owner h (delete (λ m. m.group_wallet_id == k) ms) ≡ has_owner h ms
has_owner-cascade k h [] ne = refl
has_owner-cascade k h (m ∷ ms) ne = ground (arith, has_owner-cascade k h ms ne)

pub cascade-Owned :
    (k : ℕ) (ms : List Member) (gs : List GroupWallet)
    → Owned ms gs
    → Owned (delete (λ m. m.group_wallet_id == k) ms) (delete (has_id k) gs)
cascade-Owned k ms [] h = tt
cascade-Owned k ms (g ∷ gs) h =
    ground (arith, cascade-Owned k ms gs h.1, has_owner-cascade k g.id ms)

find-cascade_none :
    (k g u : ℕ) (ms : List Member)
    → find_first (is_member g u) ms ≡ none
    → find_first (is_member g u) (delete (λ m. m.group_wallet_id == k) ms) ≡ none
find-cascade_none k g u [] e = refl
find-cascade_none k g u (m ∷ ms) e = ground (arith, find-cascade_none k g u ms)

pub cascade-Unique :
    (k : ℕ) (ms : List Member) → Unique ms → Unique (delete (λ m. m.group_wallet_id == k) ms)
cascade-Unique k [] h = tt
cascade-Unique k (m ∷ ms) h =
    ground (arith, cascade-Unique k ms h.1, find-cascade_none k m.group_wallet_id m.user_id ms h.0)

-- The write of a balance keeps the ids.
pub rebalance-Owned :
    (k : ℕ) (b : ℤ) (ms : List Member) (gs : List GroupWallet)
    → Owned ms gs
    → Owned ms (update (has_id k) (λ g. record g { balance = b }) gs)
rebalance-Owned k b ms [] h = tt
rebalance-Owned k b ms (g ∷ gs) h = (ground arith, rebalance-Owned k b ms gs h.1)

pub delete-Owned :
    (g u : ℕ) (ms : List Member) (gs : List GroupWallet)
    → Unique ms
    → owns (find_first (is_member g u) ms) ≡ false
    → Owned ms gs
    → Owned (delete (is_member g u) ms) gs
delete-Owned g u ms gs q e =
    Owned-mono ms (delete (is_member g u) ms) (λ h o. rw (has_owner-delete g u h ms q e) o) gs

pub update-Owned :
    (dto : UpdateMember) (g u : ℕ) (ms : List Member) (gs : List GroupWallet)
    → Unique ms
    → owns (find_first (is_member g u) ms) && demotes dto.role ≡ false
    → Owned ms gs
    → Owned (update (is_member g u) (updated_member dto) ms) gs
update-Owned dto g u ms gs q e =
    Owned-mono ms (update (is_member g u) (updated_member dto) ms)
      (λ h. has_owner-update dto g u h ms q e) gs

pub cons-Owned :
    (m : Member) (ms : List Member) (gs : List GroupWallet) → Owned ms gs → Owned (m ∷ ms) gs
cons-Owned m ms gs = Owned-mono ms (m ∷ ms) (λ h o. ground arith) gs
