-- ===== src/Indexer/Tests.antt =====
-- Runs of the splitting of long records, and the theorems at concrete records.
use any.Common.{ℕ, true, List, [], ◌∷◌, Bytes, codes, ◌≡◌, ◌↔◌, refl, arith}
use any.Strings.{trim_right}
use any.Indexer.Chunk.{
  Entry, best, break_point, trim_left, trim_space, split_text, split_loop, expand_entry,
  chunk_doc_id, record_base,
}
use any.Indexer.Chunk.Pieces.{IsSplit, split_text-IsSplit}
use any.Indexer.Chunk.Entries.{AreChunks, expand_entry-AreChunks}
use any.Indexer.Chunk.Range.{IsBase, in_range, chunk_doc_id-in_range}

abbrev long_text : List ℕ
long_text = codes "One is. Two, three and four"

split_long_text :
    split_text long_text 12 ≡ codes "One is." ∷ codes "Two, three" ∷ codes "and four" ∷ []
unfolding split_text split_loop break_point best trim_left trim_space trim_right
split_long_text = refl

split_text-IsSplit_example : IsSplit 12 long_text (split_text long_text 12)
split_text-IsSplit_example = split_text-IsSplit long_text 12

abbrev long_entry : Entry Bytes
long_entry = record {
  scope = codes "s";
  object_id = codes "obj";
  dataset = codes "mail";
  record_id = codes "r1";
  text = long_text;
  title = codes "Numbers";
  apply_seq = 7;
  links = [];
}

expand_entry-AreChunks_example : AreChunks long_entry 12 0 (expand_entry long_entry 12)
expand_entry-AreChunks_example = expand_entry-AreChunks long_entry 12 (omega arith)

abbrev base_id : Bytes
base_id = codes "o:d:r1"

base_id-IsBase : IsBase base_id
base_id-IsBase =
    (omega arith, (omega arith, (omega arith, (omega arith, (omega arith, (omega arith, tt))))))

abbrev longer_id : Bytes
longer_id = codes "o:d:r"

longer_id-IsBase : IsBase longer_id
longer_id-IsBase = (omega arith, (omega arith, (omega arith, (omega arith, (omega arith, tt)))))

chunk_doc_id-in_range_example :
    ((in_range longer_id (chunk_doc_id base_id 3) ≡ true) ↔ (base_id ≡ longer_id))
    × (record_base (chunk_doc_id base_id 3) ≡ base_id)
chunk_doc_id-in_range_example =
    chunk_doc_id-in_range longer_id base_id 3 longer_id-IsBase base_id-IsBase
