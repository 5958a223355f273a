-- ===== src/Authoring/Immutable.antt =====
-- Histories of writes to the store of policies and published versions.
use borges_labs.Base.{
  ◌≡◌, List, [], ◌∷◌, Str, arith, lookup, insert, lookup-insert, lookup-insert_self, ◌⊎◌, str_eq,
  str_eq_iff, is_some, if◌then◌else◌,
}
use borges_labs.Authoring.{
  Policy, BundleRef, Version, MemStore, ok, err, version_not_found, store_key, create_policy,
  update_policy, put_version, get_version, set_active_bundle, or_empty,
}

-- The calls that may change the store.
pub data Write : Type 0 where
  create_write update_write : Policy → Write
  put_write : Version → Write
  bundle_write : BundleRef → Write

unfoldable pub apply : Write → MemStore → MemStore
apply (create_write p) m = (create_policy p m).1
apply (update_write p) m = (update_policy p m).1
apply (put_write v) m = (put_version v m).1
apply (bundle_write ref) m = set_active_bundle ref m

unfoldable pub run : List Write → MemStore → MemStore
run [] m = m
run (w ∷ ws) m = run ws (apply w m)

-- The versions of a policy after a publication.
seen_after :
    (v : Version) (k : Str) (m : MemStore)
    → or_empty (lookup k (put_version v m).1.seen) ≡ (
        if str_eq (store_key v.org_id v.policy_id) k
        then (if is_some (lookup v.version_hash (or_empty (lookup k m.seen)))
            then or_empty (lookup k m.seen)
            else insert v.version_hash v (or_empty (lookup k m.seen)))
        else or_empty (lookup k m.seen))
unfolding put_version
seen_after v k m =
    let at = store_key v.org_id v.policy_id in
    let known = or_empty (lookup at m.seen) in
    ground (
      arith,
      str_eq_iff at k,
      lookup-insert at k known m.seen,
      lookup-insert at k (insert v.version_hash v known) m.seen,
    )

put_version-keeps :
    (v : Version) (org policy_id hash : Str) (m : MemStore) {old : Version}
    → get_version org policy_id hash m ≡ ok old
    → get_version org policy_id hash (put_version v m).1 ≡ ok old
unfolding get_version
put_version-keeps v org policy_id hash m e =
    let known = or_empty (lookup (store_key org policy_id) m.seen) in
    ground (
      arith,
      seen_after v (store_key org policy_id) m,
      lookup-insert v.version_hash hash v known,
      str_eq_iff v.version_hash hash,
    )

-- What a publication makes the store serve, and that it serves something under the new hash.
pub put_version-get :
    (v : Version) (org policy_id hash : Str) (m : MemStore) (w : Version)
    → get_version org policy_id hash (put_version v m).1 ≡ ok w
    → (get_version org policy_id hash m ≡ ok w) ⊎ ((w ≡ v) × (v.version_hash ≡ hash))
unfolding get_version
put_version-get v org policy_id hash m w e =
    let known = or_empty (lookup (store_key org policy_id) m.seen) in
    ground (
      arith,
      seen_after v (store_key org policy_id) m,
      lookup-insert v.version_hash hash v known,
      str_eq_iff v.version_hash hash,
    )

pub put_version-new :
    (v : Version) (m : MemStore)
    → get_version v.org_id v.policy_id v.version_hash m ≡ err version_not_found
    → get_version v.org_id v.policy_id v.version_hash (put_version v m).1 ≡ ok v
unfolding get_version
put_version-new v m e =
    let k = store_key v.org_id v.policy_id in
    let known = or_empty (lookup k m.seen) in
    ground (arith, seen_after v k m, str_eq_iff k k, lookup-insert_self v.version_hash v known)

pub apply-keeps :
    (w : Write) (org policy_id hash : Str) (m : MemStore) {old : Version}
    → get_version org policy_id hash m ≡ ok old
    → get_version org policy_id hash (apply w m) ≡ ok old
unfolding apply create_policy update_policy set_active_bundle get_version
apply-keeps (create_write p) org policy_id hash m e = ground arith
apply-keeps (update_write p) org policy_id hash m e = ground arith
apply-keeps (put_write v) org policy_id hash m e = put_version-keeps v org policy_id hash m e
apply-keeps (bundle_write ref) org policy_id hash m e = ground arith

-- Over any history of writes, a version that the store serves under a hash is served unchanged,
-- also where a version with the same hash and another content is put.
pub run-immutable :
    (ws : List Write) (org policy_id hash : Str) (m : MemStore) {old : Version}
    → get_version org policy_id hash m ≡ ok old
    → get_version org policy_id hash (run ws m) ≡ ok old
unfolding run
run-immutable [] org policy_id hash m e = e
run-immutable (w ∷ ws) org policy_id hash m e =
    run-immutable ws org policy_id hash (apply w m) (apply-keeps w org policy_id hash m e)
