-- ===== src/Users/Laws.antt =====
-- What the operations of UserDirectory do to the users that can be looked up.
use nettverk.Prelude.{
  ℕ, ◌+◌, ◌≡◌, refl, false, Bool, not, ◌&&◌, ◌||◌, none, some, [], ◌∷◌, Bytes, bytes_eq,
  bytes_eq_iff, bytes_eq_refl, is_empty, find, find-insert, find-retain, insert-UniqueKeys,
  retain-UniqueKeys, UniqueKeys, kept, ltb, arith, if◌then◌else◌,
}
use nettverk.Net.{SockAddr, seconds}
use nettverk.Users.{PeerInfo, UserDirectory, upsert, prune_stale, is_fresh, find_address}

-- Names are distinct, an entry stands under its own name, and neither the empty name nor one's own
-- is listed.
pub record IsValid (d : UserDirectory) : Type 0 where
  pub unique : UniqueKeys d.peers
  pub named : (k : Bytes) (p : PeerInfo) → find k d.peers ≡ some p → p.username ≡ k
  pub filled : find [] d.peers ≡ none
  pub no_self : is_empty d.self_username ≡ false → find d.self_username d.peers ≡ none

-- `upsert` ignores the name: it is empty or one's own.
abbrev pub is_ignored : UserDirectory → Bytes → Bool
is_ignored d username =
    is_empty username || (not (is_empty d.self_username) && bytes_eq username d.self_username)

pub find-upsert :
    (d : UserDirectory) (now : ℕ) (username : Bytes) (from : SockAddr) (j : Bytes)
    → find j (upsert d now username from).peers ≡ (
        if is_ignored d username
        then find j d.peers
        else if bytes_eq username j
        then some (record { username = username; address = from; last_seen = now })
        else find j d.peers)
unfolding upsert
find-upsert d now username from j = ground (
  arith,
  find-insert username j (record { username = username; address = from; last_seen = now }) d.peers,
)

-- A name that is not ignored is found at the address it was heard from; all others stay as they
-- were, and an ignored name changes nothing.
pub find_address-upsert :
    (d : UserDirectory) (now : ℕ) (username : Bytes) (from : SockAddr) (j : Bytes)
    → find_address (upsert d now username from) j ≡ (
        if is_ignored d username
        then find_address d j
        else if bytes_eq username j
        then some from
        else find_address d j)
unfolding find_address
find_address-upsert d now username from j = ground (arith, find-upsert d now username from j)

upsert_unique :
    (d : UserDirectory) (now : ℕ) (username : Bytes) (from : SockAddr)
    → UniqueKeys d.peers
    → UniqueKeys (upsert d now username from).peers
unfolding upsert
upsert_unique d now username from u = ground (
  arith,
  insert-UniqueKeys username (record { username = username; address = from; last_seen = now })
      d.peers u,
)

upsert_self :
    (d : UserDirectory) (now : ℕ) (username : Bytes) (from : SockAddr)
    → (upsert d now username from).self_username ≡ d.self_username
unfolding upsert
upsert_self d now username from = ground arith

nonempty-ne-nil : (s : Bytes) → is_empty s ≡ false → bytes_eq s [] ≡ false
unfolding bytes_eq
nonempty-ne-nil [] h = cc
nonempty-ne-nil (c ∷ s) h = refl

-- Hearing of a user keeps the directory valid, whoever it is.
pub upsert-IsValid :
    (d : UserDirectory) (now : ℕ) (username : Bytes) (from : SockAddr)
    → IsValid d
    → IsValid (upsert d now username from)
upsert-IsValid d now username from v = record {
  unique = upsert_unique d now username from v.unique;
  named = λ k p e.
      ground (arith, find-upsert d now username from k, bytes_eq_iff username k, v.named k p);
  filled = ground (arith, find-upsert d now username from [], nonempty-ne-nil username, v.filled);
  no_self = λ h. ground (
    arith,
    upsert_self d now username from,
    find-upsert d now username from d.self_username,
    find-upsert d now username from (upsert d now username from).self_username,
    v.no_self,
  );
}

pub find-prune_stale :
    (d : UserDirectory) (now max_age : ℕ) (j : Bytes)
    → UniqueKeys d.peers
    → find j (prune_stale d now max_age).peers ≡ kept (is_fresh now max_age) (find j d.peers)
unfolding prune_stale
find-prune_stale d now max_age j u = find-retain (is_fresh now max_age) j d.peers u

prune_unique :
    (d : UserDirectory) (now max_age : ℕ)
    → UniqueKeys d.peers
    → UniqueKeys (prune_stale d now max_age).peers
unfolding prune_stale
prune_unique d now max_age u = retain-UniqueKeys (is_fresh now max_age) d.peers u

prune_self :
    (d : UserDirectory) (now max_age : ℕ)
    → (prune_stale d now max_age).self_username ≡ d.self_username
unfolding prune_stale
prune_self d now max_age = refl

pub prune_stale-IsValid :
    (d : UserDirectory) (now max_age : ℕ) → IsValid d → IsValid (prune_stale d now max_age)
prune_stale-IsValid d now max_age v = record {
  unique = prune_unique d now max_age v.unique;
  named = λ k p e. ground (arith, find-prune_stale d now max_age k v.unique, v.named k p);
  filled = ground (arith, find-prune_stale d now max_age [] v.unique, v.filled);
  no_self = λ h. ground (
    arith,
    prune_self d now max_age,
    find-prune_stale d now max_age d.self_username v.unique,
    find-prune_stale d now max_age (prune_stale d now max_age).self_username v.unique,
    v.no_self,
  );
}

-- In a well-formed directory, a user who is heard from an address, under a name that is not ignored,
-- is found at that address after a pruning if no more than the given span has passed, and else not.
pub heard_until :
    (d : UserDirectory) (heard now max_age : ℕ) (username : Bytes) (from : SockAddr)
    → IsValid d
    → is_ignored d username ≡ false
    → find_address (prune_stale (upsert d heard username from) now max_age) username
      ≡ (if ltb (heard + seconds max_age) now then none else some from)
unfolding find_address
heard_until d heard now max_age username from v h = ground (
  arith,
  find-prune_stale (upsert d heard username from) now max_age username
      (upsert_unique d heard username from v.unique),
  find-upsert d heard username from username,
  bytes_eq_refl username,
)
