-- ===== src/Storage/SsTable/Lookup.antt =====
-- A table of nova-storage/src/lsm.rs finds exactly the entries it was made of.
use nova_runtime.Base.{
  ℕ, ◌+◌, ◌%◌, ◌^◌, ◌≡◌, refl, sym, ap, ap₂, ◌∙◌, Bool, true, false, ◌&&◌, List, [], ◌∷◌, ◌++◌,
  Option, none, some, length, length-append, map, concat, if◌then◌else◌, Result, ok, All, All-split,
  append_assoc, Bool-cases, Option-cases, inl, inr, or_else, ◌==◌, list_eq, nat_eq, list_beq_iff,
  arith,
}
use mathlib.Core.Path.{subst}
use mathlib.Core.Bool.{true≢false}
use nova_runtime.Storage.Bytes.{Bytes}
use nova_runtime.Storage.Bloom.{BloomFilter, may_contain, default_bloom_bits_per_key}
use nova_runtime.Storage.Bloom as Bloom
use nova_runtime.Storage.Bloom.Members.{insert_all, may_contain-insert_all}
use nova_runtime.Storage.SsTable.{
  Entry, DataBlockHeader, block_bytes, cut_blocks, block_header, write_headers, write_blocks,
  add_keys, create_with_tombstones, lex_leb, find_entry, first_key_of, last_key_of, search_index,
  search_block, found_or, read_block, get_with_tombstone,
}
use nova_runtime.Storage.SsTable.Blocks.{IsSmall, concat-cut_blocks, read_block-written}

-- The keys go in the order of byte slices.
abbrev pub IsOrdered : List Entry → Type 0
IsOrdered [] = Unit
IsOrdered (e ∷ es) = All (λ f. lex_leb e.0 f.0 ≡ true) es × IsOrdered es

lex_leb_refl : (xs : Bytes) → lex_leb xs xs ≡ true
unfolding lex_leb
lex_leb_refl [] = refl
lex_leb_refl (x ∷ xs) = ground (arith, lex_leb_refl xs)

IsOrdered-split : (xs ys : List Entry) → IsOrdered (xs ++ ys) → IsOrdered xs × IsOrdered ys
IsOrdered-split [] ys o = (tt, o)
IsOrdered-split (x ∷ xs) ys o =
    let rest = IsOrdered-split xs ys o.1 in
    (((All-split (λ (f : Entry). lex_leb x.0 f.0 ≡ true) xs ys o.0).0, rest.0), rest.1)

-- What holds of all keys holds of one that is found.
found-All :
    (P : Bytes → Type 0) (key : Bytes) (v : Option Bytes) (es : List Entry)
    → All (λ e. P e.0) es
    → find_entry key es ≡ some v
    → P key
found-All P key v [] a h = cc
found-All P key v (e ∷ es) a h = elim (Bool-cases (e.0 == key)) [
  | inl b ↦ subst P ((list_beq_iff e.0 key).0 b) a.0
  | inr b ↦ found-All P key v es a.1 (later b)
]
  where
    later : (e.0 == key) ≡ false → find_entry key es ≡ some v
    later b = ap (λ (t : Bool). if t then some e.1 else find_entry key es) (sym b) ∙ h

first-le :
    (key : Bytes) (v : Option Bytes) (es : List Entry)
    → IsOrdered es
    → find_entry key es ≡ some v
    → lex_leb (first_key_of es) key ≡ true
first-le key v [] o h = cc
first-le key v (e ∷ es) o h =
    found-All (λ k. lex_leb e.0 k ≡ true) key v (e ∷ es) (lex_leb_refl e.0, o.0) h

last-All :
    (P : Bytes → Type 0) (e : Entry) (es : List Entry)
    → All (λ f. P f.0) (e ∷ es)
    → P (last_key_of (e ∷ es))
last-All P e [] a = a.0
last-All P e (f ∷ es) a = last-All P f es a.1

le-last :
    (key : Bytes) (v : Option Bytes) (es : List Entry)
    → IsOrdered es
    → find_entry key es ≡ some v
    → lex_leb key (last_key_of es) ≡ true
le-last key v es o h = found-All (λ k. lex_leb k (last_key_of es) ≡ true) key v es (below es o) h
  where
    below : (es : List Entry) → IsOrdered es → All (λ e. lex_leb e.0 (last_key_of es) ≡ true) es
    below [] o = tt
    below (e ∷ []) o = (lex_leb_refl e.0, tt)
    below (e ∷ f ∷ es) o = (last-All (λ k. lex_leb e.0 k ≡ true) f es o.0, below (f ∷ es) o.1)

find_entry-append :
    (key : Bytes) (xs ys : List Entry)
    → find_entry key (xs ++ ys) ≡ or_else (find_entry key xs) (find_entry key ys)
find_entry-append key [] ys = refl
find_entry-append key (x ∷ xs) ys = ground (arith, find_entry-append key xs ys)

-- Outside the range of a block the key is not in it.
out_of_range :
    (key : Bytes) (block : List Entry)
    → IsOrdered block
    → (lex_leb (first_key_of block) key && lex_leb key (last_key_of block)) ≡ false
    → find_entry key block ≡ none
out_of_range key block o h = elim (Option-cases (find_entry key block)) [
  | inl e ↦ e
  | inr (v, e) ↦ absurd (ground (arith, h, first-le key v block o e, le-last key v block o e))
]

add_keys-insert_all :
    (xxh3_64 : Bytes → ℕ) (entries : List Entry) (f : BloomFilter)
    → add_keys xxh3_64 entries f ≡ insert_all xxh3_64 (map (λ e. e.0) entries) f
unfolding insert_all
add_keys-insert_all xxh3_64 [] f = refl
add_keys-insert_all xxh3_64 (e ∷ es) f = add_keys-insert_all xxh3_64 es (Bloom.insert xxh3_64 e.0 f)

All-keys : (P : Bytes → Type 0) (es : List Entry) → All P (map (λ e. e.0) es) → All (λ e. P e.0) es
All-keys P [] a = tt
All-keys P (e ∷ es) a = (a.0, All-keys P es a.1)

-- A key that the filter denies has no entry.
denied :
    (hashes_for : ℕ → ℕ → ℕ) (xxh3_64 : Bytes → ℕ) (n k : ℕ) (key : Bytes) (entries : List Entry)
    → may_contain xxh3_64 key (add_keys xxh3_64 entries (Bloom.new hashes_for n k)) ≡ false
    → find_entry key entries ≡ none
denied hashes_for xxh3_64 n k key entries h =
    let same = add_keys-insert_all xxh3_64 entries (Bloom.new hashes_for n k) in
    elim (Option-cases (find_entry key entries)) [
      | inl e ↦ e
      | inr (v, e) ↦
          let there : may_contain xxh3_64 key
                (insert_all xxh3_64 (map (λ e. e.0) entries) (Bloom.new hashes_for n k))
              ≡ true =
            found-All
              (λ x.
                may_contain xxh3_64 x
                  (insert_all xxh3_64 (map (λ e. e.0) entries) (Bloom.new hashes_for n k))
                ≡ true)
              key v entries
              (All-keys _ entries
                (may_contain-insert_all hashes_for xxh3_64 n k (map (λ e. e.0) entries)))
              e in
          absurd (
            true≢false
              (sym there ∙ (ap (λ (f : BloomFilter). may_contain xxh3_64 key f) (sym same) ∙ h)))
    ]

module _ {E : Type 0} (compress : Bytes → Bytes) (decompress : Bytes → Result E Bytes)
    (undo : (bytes : Bytes) → decompress (compress bytes) ≡ ok bytes) where
  found_or-ok :
      (o later : Option (Option Bytes)) → found_or decompress o (ok later) ≡ ok (or_else o later)
  found_or-ok none later = refl
  found_or-ok (some v) later = refl

  search_index-written :
      (key : Bytes) (blocks : List (List Entry)) (before after : Bytes) (offset : ℕ)
      → All IsSmall (concat blocks)
      → IsOrdered (concat blocks)
      → length before ≡ offset
      → search_index decompress key
          (before ++ (write_blocks compress blocks ++ after))
          (write_headers compress blocks offset)
        ≡ ok (find_entry key (concat blocks))
  unfolding search_index write_headers write_blocks
  search_index-written key [] before after offset s o e = refl
  search_index-written key (b ∷ blocks) before after offset s o e =
      let c = compress (block_bytes b) in
      let rest = write_blocks compress blocks in
      let file = before ++ ((c ++ rest) ++ after) in
      let headers = write_headers compress blocks (offset + length c) in
      let small = All-split IsSmall b (concat blocks) s in
      let ordered = IsOrdered-split b (concat blocks) o in
      let inner : file ≡ before ++ (c ++ (rest ++ after)) =
        ap (λ (t : Bytes). before ++ t) (append_assoc c rest after) in
      let outer : file ≡ (before ++ c) ++ (rest ++ after) =
        inner ∙ sym (append_assoc before c (rest ++ after)) in
      let onward : search_index decompress key file headers ≡ ok (find_entry key (concat blocks)) =
        ap (λ (f : Bytes). search_index decompress key f headers) outer
        ∙ search_index-written key blocks (before ++ c) after (offset + length c) small.1 ordered.1
            (omega (arith, length-append before c, e)) in
      let hit : read_block decompress file (block_header compress offset b) ≡ ok b =
        ap (λ (f : Bytes). read_block decompress f (block_header compress offset b)) inner
        ∙ read_block-written compress decompress undo b before (rest ++ after) offset small.0 e in
      elim (Bool-cases (lex_leb (first_key_of b) key && lex_leb key (last_key_of b))) [
        | inl r ↦ rw r (
            ap₂
              (λ (x : Result E (List Entry)) (y : Result E (Option (Option Bytes))).
                search_block decompress key x y)
              hit onward
            ∙ (found_or-ok (find_entry key b) (find_entry key (concat blocks))
                ∙ ap ok (sym (find_entry-append key b (concat blocks)))))
        | inr r ↦ rw r (
            onward
            ∙ ap (λ (x : Option (Option Bytes)). ok (or_else x (find_entry key (concat blocks))))
                (sym (out_of_range key b ordered.0 r))
            ∙ ap ok (sym (find_entry-append key b (concat blocks))))
      ]

  module _ (hashes_for : ℕ → ℕ → ℕ) (xxh3_64 : Bytes → ℕ)
      (trailer : List DataBlockHeader → BloomFilter → Bytes) where
    -- If decompression undoes compression, and the keys of some entries are in order and the
    -- lengths of keys and values fit their fields, then a lookup in the table that is made of the
    -- entries gives the first of them with the key: its value, or a tombstone, or that there is
    -- none.
    pub get_with_tombstone-create_with_tombstones :
        (key : Bytes) (entries : List Entry)
        → All IsSmall entries
        → IsOrdered entries
        → get_with_tombstone decompress xxh3_64 key
            (create_with_tombstones compress hashes_for xxh3_64 trailer entries)
          ≡ ok (find_entry key entries)
    unfolding get_with_tombstone create_with_tombstones
    get_with_tombstone-create_with_tombstones key entries s o =
        let n = length entries % 2 ^ 32 in
        let filter = add_keys xxh3_64 entries (Bloom.new hashes_for n default_bloom_bits_per_key) in
        let blocks = cut_blocks entries [] 0 in
        let whole = concat-cut_blocks entries [] 0 in
        elim (Bool-cases (may_contain xxh3_64 key filter)) [
          | inl b ↦ rw b (
              search_index-written key blocks [] (trailer (write_headers compress blocks 0) filter)
                0 (rw whole s) (rw whole o) refl
              ∙ ap (λ (es : List Entry). ok (find_entry key es)) whole)
          | inr b ↦
              rw (b, denied hashes_for xxh3_64 n default_bloom_bits_per_key key entries b) refl
        ]
