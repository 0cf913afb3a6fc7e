-- ===== src/Chunker/Deduplicate.antt =====
-- `_deduplicate_chunks` of backend/app/retrieval/chunker.py: a dictionary from the key of a chunk to
-- the most specific chunk that has it, in the order in which the keys came.
use issue_pilot.Prelude.{
  ℕ, ◌+◌, ◌≡◌, refl, ap, min, Bool, true, ◌&&◌, if◌then◌else◌, List, [], ◌∷◌, ltb, leb, ◌==◌,
  ==_iff, ==_refl, Bool-cases, inl, inr, All, arith,
}
use issue_pilot.Prelude.Table.{count}
use issue_pilot.Chunker.Source.{Text}
use issue_pilot.Chunker.Ordering.{
  text_eq, text_eq_refl, text_eq_sound, sorted, count-sorted, All-sorted,
}
use issue_pilot.Chunker.Drafts.{CodeChunkDraft, specificity, chunk_before}

pub record ChunkKey : Type 0 where
  pub path : Text
  pub start_line : ℕ
  pub end_line : ℕ
  pub content_sha256 : Text

abbrev pub chunk_key : CodeChunkDraft → ChunkKey
chunk_key chunk = record {
  path = chunk.path;
  start_line = chunk.start_line;
  end_line = chunk.end_line;
  content_sha256 = chunk.content_sha256;
}

unfoldable pub key_eq : ChunkKey → ChunkKey → Bool
key_eq k m =
    text_eq k.path m.path
    && ((k.start_line == m.start_line)
        && ((k.end_line == m.end_line) && text_eq k.content_sha256 m.content_sha256))

abbrev pub has_key : ChunkKey → CodeChunkDraft → Bool
has_key k chunk = key_eq k (chunk_key chunk)

unfoldable pub is_more_specific : (candidate current : CodeChunkDraft) → Bool
is_more_specific candidate current = ltb (specificity current.kind) (specificity candidate.kind)

-- The body of the loop: look the key up, and store the chunk if it is new or more specific.
unfoldable pub store_chunk : CodeChunkDraft → List CodeChunkDraft → List CodeChunkDraft
store_chunk chunk [] = chunk ∷ []
store_chunk chunk (current ∷ rest) =
    let later = store_chunk chunk rest in
    if has_key (chunk_key chunk) current
    then (if is_more_specific chunk current then chunk else current) ∷ rest
    else current ∷ later

unfoldable pub unique_chunks : (unique chunks : List CodeChunkDraft) → List CodeChunkDraft
unique_chunks unique [] = unique
unique_chunks unique (chunk ∷ chunks) = unique_chunks (store_chunk chunk unique) chunks

unfoldable pub deduplicate_chunks : List CodeChunkDraft → List CodeChunkDraft
deduplicate_chunks chunks = sorted chunk_before (unique_chunks [] chunks)

key_eq_refl : (k : ChunkKey) → key_eq k k ≡ true
unfolding key_eq
key_eq_refl k = ground (
  arith,
  text_eq_refl k.path,
  text_eq_refl k.content_sha256,
  ==_refl k.start_line,
  ==_refl k.end_line,
)

key_eq_sound : (k m : ChunkKey) → key_eq k m ≡ true → k ≡ m
unfolding key_eq
key_eq_sound k m h = ground (
  arith,
  text_eq_sound k.path m.path,
  text_eq_sound k.content_sha256 m.content_sha256,
  ==_iff k.start_line m.start_line,
  ==_iff k.end_line m.end_line,
)

-- Chunks with the same key have the same keys; chunks with different ones share none.
same_keys :
    (k : ChunkKey) (a b : CodeChunkDraft)
    → has_key (chunk_key a) b ≡ true
    → has_key k a ≡ has_key k b
same_keys k a b h = ap (key_eq k) (key_eq_sound (chunk_key a) (chunk_key b) h)

-- The chunk has the key, and its kind is at least as specific as the level.
abbrev pub is_at_least : ChunkKey → ℕ → CodeChunkDraft → Bool
is_at_least k level chunk = has_key k chunk && leb level (specificity chunk.kind)

store_chunk-least :
    (k : ChunkKey) (level : ℕ) (chunk : CodeChunkDraft) (unique : List CodeChunkDraft)
    → min 1 (count (is_at_least k level) (store_chunk chunk unique))
      ≡ min 1 (count (is_at_least k level) (chunk ∷ unique))
unfolding store_chunk count is_more_specific
store_chunk-least k level chunk [] = refl
store_chunk-least k level chunk (current ∷ rest) =
    ground (arith, store_chunk-least k level chunk rest, same_keys k chunk current)

unique_chunks-least :
    (k : ChunkKey) (level : ℕ) (unique chunks : List CodeChunkDraft)
    → min 1 (count (is_at_least k level) (unique_chunks unique chunks))
      ≡ min 1 (count (is_at_least k level) unique + count (is_at_least k level) chunks)
unfolding unique_chunks count
unique_chunks-least k level unique [] = omega arith
unique_chunks-least k level unique (chunk ∷ chunks) = ground (
  arith,
  unique_chunks-least k level (store_chunk chunk unique) chunks,
  store_chunk-least k level chunk unique,
)

-- What it keeps is the most specific: a chunk of its result has a key and a kind of at least some
-- specificity exactly if a chunk of its argument has.
pub deduplicate_chunks_most_specific :
    (k : ChunkKey) (level : ℕ) (chunks : List CodeChunkDraft)
    → min 1 (count (is_at_least k level) (deduplicate_chunks chunks))
      ≡ min 1 (count (is_at_least k level) chunks)
unfolding deduplicate_chunks count
deduplicate_chunks_most_specific k level chunks = omega (
  arith,
  count-sorted chunk_before (is_at_least k level) (unique_chunks [] chunks),
  unique_chunks-least k level [] chunks,
)

module _ {κ} (P : CodeChunkDraft → Type κ) where
  store_chunk-All :
      (chunk : CodeChunkDraft) (unique : List CodeChunkDraft)
      → P chunk
      → All P unique
      → All P (store_chunk chunk unique)
  unfolding store_chunk
  store_chunk-All chunk [] p h = (p, tt)
  store_chunk-All chunk (current ∷ rest) p (q, h) =
      elim (Bool-cases (has_key (chunk_key chunk) current)) [
        | inl same ↦ rw same (
          elim (Bool-cases (is_more_specific chunk current)) [ inl e ↦ rw e p | inr e ↦ rw e q ],
          h,
        )
        | inr new ↦ rw new (q, store_chunk-All chunk rest p h)
      ]

  unique_chunks-All :
      (unique chunks : List CodeChunkDraft)
      → All P unique
      → All P chunks
      → All P (unique_chunks unique chunks)
  unfolding unique_chunks
  unique_chunks-All unique [] h k = h
  unique_chunks-All unique (chunk ∷ chunks) h (p, k) =
      unique_chunks-All (store_chunk chunk unique) chunks (store_chunk-All chunk unique p h) k

  pub deduplicate_chunks-All :
      (chunks : List CodeChunkDraft) → All P chunks → All P (deduplicate_chunks chunks)
  unfolding deduplicate_chunks
  deduplicate_chunks-All chunks h =
      All-sorted chunk_before P (unique_chunks [] chunks) (unique_chunks-All [] chunks tt h)
