-- ===== src/Defender/Networks.antt =====
-- The networks of the proposal service's client and their chain ids: isValidNetwork, fromChainId
-- and toChainId (.github/actions/propose/dist/index.js), for texts that are no member of every
-- object.
use forta_node_tr.Prelude.{
  ℕ, Text, Dict, List, [], ◌∷◌, Bool, true, false, ◌&&◌, ◌||◌, Option, none, some, codes, text_eq,
  text_eq_iff, ◌==◌, ==_iff, if◌then◌else◌, lookup, ◌≡◌, ◌↔◌, refl, sym, subst, arith,
}

pub networks : List Text
networks =
    codes "mainnet"
    ∷ codes "rinkeby"
    ∷ codes "ropsten"
    ∷ codes "kovan"
    ∷ codes "goerli"
    ∷ codes "xdai"
    ∷ codes "sokol"
    ∷ codes "fuse"
    ∷ codes "bsc"
    ∷ codes "bsctest"
    ∷ codes "fantom"
    ∷ codes "fantomtest"
    ∷ codes "moonbase"
    ∷ codes "moonriver"
    ∷ codes "moonbeam"
    ∷ codes "matic"
    ∷ codes "mumbai"
    ∷ codes "avalanche"
    ∷ codes "fuji"
    ∷ codes "optimism"
    ∷ codes "optimism-kovan"
    ∷ codes "arbitrum"
    ∷ codes "arbitrum-rinkeby"
    ∷ codes "celo"
    ∷ codes "alfajores"
    ∷ codes "harmony-s0"
    ∷ codes "harmony-test-s0"
    ∷ codes "aurora"
    ∷ codes "auroratest"
    ∷ []

chain_ids : Dict ℕ
chain_ids =
    (codes "mainnet", 1)
    ∷ (codes "rinkeby", 4)
    ∷ (codes "ropsten", 3)
    ∷ (codes "kovan", 42)
    ∷ (codes "goerli", 5)
    ∷ (codes "xdai", 100)
    ∷ (codes "sokol", 77)
    ∷ (codes "fuse", 122)
    ∷ (codes "bsc", 56)
    ∷ (codes "bsctest", 97)
    ∷ (codes "fantom", 250)
    ∷ (codes "fantomtest", 0xfa2)
    ∷ (codes "moonbase", 1287)
    ∷ (codes "moonriver", 1285)
    ∷ (codes "moonbeam", 1284)
    ∷ (codes "matic", 137)
    ∷ (codes "mumbai", 80001)
    ∷ (codes "avalanche", 0xa86a)
    ∷ (codes "fuji", 0xa869)
    ∷ (codes "optimism", 10)
    ∷ (codes "optimism-kovan", 69)
    ∷ (codes "arbitrum", 42161)
    ∷ (codes "arbitrum-rinkeby", 421611)
    ∷ (codes "celo", 42220)
    ∷ (codes "alfajores", 44787)
    ∷ (codes "harmony-s0", 1666600000)
    ∷ (codes "harmony-test-s0", 1666700000)
    ∷ (codes "aurora", 1313161554)
    ∷ (codes "auroratest", 1313161555)
    ∷ []

-- `includes`
pub includes : Text → List Text → Bool
includes text [] = false
includes text (x ∷ xs) = text_eq x text || includes text xs

pub is_valid_network : Text → Bool
is_valid_network text = includes text networks

-- `_.findKey(ids, (number) => number === id)`
find_key : ℕ → Dict ℕ → Option Text
find_key id [] = none
find_key id ((k, n) ∷ ids) = if n == id then some k else find_key id ids

pub from_chain_id : ℕ → Option Text
from_chain_id id = find_key id chain_ids

pub to_chain_id : Text → Option ℕ
to_chain_id network = lookup network chain_ids

abbrev pub is_none : {A : Type 0} → Option A → Bool
is_none none = true
is_none (some a) = false

-- No key and no number occurs twice.
unique : Dict ℕ → Bool
unique [] = true
unique ((k, n) ∷ ids) = is_none (lookup k ids) && is_none (find_key n ids) && unique ids

keys : Dict ℕ → List Text
keys [] = []
keys ((k, n) ∷ ids) = k ∷ keys ids

find_key_iff :
    (id : ℕ) (k : Text) (ids : Dict ℕ)
    → unique ids ≡ true
    → (find_key id ids ≡ some k) ↔ (lookup k ids ≡ some id)
unfolding unique find_key lookup
find_key_iff id k [] u = ground arith
find_key_iff id k ((j, n) ∷ ids) u =
    ground (arith, ==_iff n id, text_eq_iff j k, find_key_iff id k ids)

includes_iff :
    (k : Text) (ids : Dict ℕ) → (includes k (keys ids) ≡ true) ↔ (is_none (lookup k ids) ≡ false)
unfolding includes keys lookup
includes_iff k [] = ground arith
includes_iff k ((j, n) ∷ ids) = ground (arith, includes_iff k ids)

chain_ids-unique : unique chain_ids ≡ true
unfolding unique chain_ids lookup find_key text_eq
chain_ids-unique = refl

networks-keys : networks ≡ keys chain_ids
unfolding networks keys chain_ids
networks-keys = refl

-- The chain id of a network is found by its name exactly when the name is found by the chain id.
pub from_chain_id_iff :
    (id : ℕ) (k : Text) → (from_chain_id id ≡ some k) ↔ (to_chain_id k ≡ some id)
unfolding from_chain_id to_chain_id
from_chain_id_iff id k = find_key_iff id k chain_ids chain_ids-unique

-- The valid networks are those that have a chain id.
pub is_valid_network_iff :
    (k : Text) → (is_valid_network k ≡ true) ↔ (is_none (to_chain_id k) ≡ false)
unfolding is_valid_network to_chain_id
is_valid_network_iff k =
    subst (λ xs. (includes k xs ≡ true) ↔ (is_none (lookup k chain_ids) ≡ false))
      (sym networks-keys) (includes_iff k chain_ids)
