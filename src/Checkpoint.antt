-- ===== src/Checkpoint.antt =====
-- chronos-mem/src/smt.rs, the chain of checkpoints: `CheckpointChain` and its verifier.
pub mod Chain
pub mod Tamper
pub mod Coverage
mod Examples
mod UnitTests
use chronos_uvm.Prelude.{
  ℕ, zero, suc, ◌/◌, ◌%◌, Option, none, some, List, [], ◌∷◌, ◌++◌, ◌>>=◌, get_last?,
}
use chronos_uvm.Prelude.Result.{Result, ok}
use chronos_uvm.Blake3.{Blake3}
use chronos_uvm.Dirty.{DirtyPageSet, iter_dirty}
use chronos_uvm.Smt
use chronos_uvm.Smt.{SparseMerkleTree, update_leaf, root}

-- `u64::to_le_bytes`
pub le_bytes : ℕ → ℕ → List ℕ
le_bytes zero x = []
le_bytes (suc n) x = (x % 256) ∷ le_bytes n (x / 256)

pub data ChainVerifyError : Type 0 where
  empty : ChainVerifyError

-- The bytes of "chronos-uvm-genesis".
abbrev pub genesis_text : List ℕ
genesis_text =
    b'c' ∷ b'h' ∷ b'r' ∷ b'o' ∷ b'n' ∷ b'o' ∷ b's' ∷ b'-' ∷ b'u' ∷ b'v' ∷ b'm' ∷ b'-' ∷ b'g' ∷ b'e'
    ∷ b'n' ∷ b'e' ∷ b's' ∷ b'i' ∷ b's' ∷ []

module _ (B : Blake3) where
  open B use {Hash, hash, as_bytes}

  pub record CheckpointEntry : Type 0 where
    pub tick : ℕ
    pub smt_root : Hash
    pub register_digest : Hash
    pub chain_hash : Hash

  pub record CheckpointChain : Type 0 where
    pub tree : SparseMerkleTree B
    pub entries : List CheckpointEntry

  unfoldable pub new : CheckpointChain
  new = record { tree = Smt.new B; entries = [] }

  pub genesis : Hash
  genesis = hash genesis_text

  -- The four `update`s and the `finalize` that both `checkpoint` and `verify_chain` make.
  pub link : Hash → ℕ → Hash → Hash → Hash
  link prev tick smt_root register_digest =
      hash (as_bytes prev ++ (as_bytes smt_root ++ (as_bytes register_digest ++ le_bytes 8 tick)))

  pub latest : CheckpointChain → Option CheckpointEntry
  latest c = get_last? c.entries

  -- The chain hash of the last entry, or that of the genesis.
  abbrev pub hash_of : Option CheckpointEntry → Hash
  hash_of none = genesis
  hash_of (some e) = e.chain_hash

  -- `for page_idx in dirty.iter_dirty()`; `page_bytes` is the memory's, and may panic.
  pub rehash : (ℕ → Option (List ℕ)) → List ℕ → SparseMerkleTree B → Option (SparseMerkleTree B)
  rehash page_bytes [] tree = some tree
  rehash page_bytes (page_idx ∷ pages) tree = do
    bytes ← page_bytes page_idx
    rehash page_bytes pages (update_leaf B page_idx bytes tree)

  -- The entry that `checkpoint` makes once the leaves are up to date.
  pub next_entry : ℕ → SparseMerkleTree B → Hash → Option CheckpointEntry → CheckpointEntry
  unfolding link genesis
  next_entry tick tree register_digest previous =
      let smt_root = root B tree in
      record {
        tick = tick;
        smt_root = smt_root;
        register_digest = register_digest;
        chain_hash = link (hash_of previous) tick smt_root register_digest;
      }

  pub checkpoint :
      ℕ
      → (ℕ → Option (List ℕ))
      → DirtyPageSet
      → Hash
      → CheckpointChain
      → Option (CheckpointEntry × CheckpointChain)
  unfolding rehash next_entry latest
  checkpoint tick page_bytes dirty register_digest c = do
    tree ← rehash page_bytes (iter_dirty dirty) c.tree
    let entry = next_entry tick tree register_digest (latest c)
    some (entry, record { tree = tree; entries = c.entries ++ entry ∷ [] })

  -- One claim: a tick, a root and a register digest.
  abbrev pub Claim : Type 0
  Claim = ℕ × Hash × Hash

  pub fold_claims : Hash → List Claim → Hash
  unfolding link
  fold_claims chain_hash [] = chain_hash
  fold_claims chain_hash ((tick, smt_root, register_digest) ∷ claims) =
      fold_claims (link chain_hash tick smt_root register_digest) claims

  pub verify_chain : List Claim → Result ChainVerifyError Hash
  unfolding fold_claims genesis
  verify_chain claims = ok (fold_claims genesis claims)
