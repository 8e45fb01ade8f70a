-- ===== src/Qoi/Tests.antt =====
-- A run of the image decoder, and its theorems at concrete files.
use limine_eucleia.Prelude.{
  ℕ, ◌+◌, ◌*◌, ◌≡◌, refl, inr, false, ltb, take, All, All-all, ltb→lt, some, List, [], ◌∷◌, arith,
  ok, ◌>>=◌, Ends,
}
use limine_eucleia.Memmap.Entry.{usable}
use limine_eucleia.Memmap.Alloc.Range.{Pmm}
use limine_eucleia.Memmap.Alloc.High.{ext_mem_alloc}
use limine_eucleia.Qoi.Decode.{decode_loop, starting, qoi_decode}
use limine_eucleia.Qoi.Stream.{
  Chunk, from_index, diff, luma, repeats, rgb, chunk_bytes, chunk_words,
}
use limine_eucleia.Qoi.Image.{file_of, qoi_decode-file_of}
use limine_eucleia.Qoi.Filled.{IsByte}
use limine_eucleia.Qoi.Safe.{SafeDecode, qoi_decode-SafeDecode}

abbrev picture : List Chunk
picture = rgb 10 20 30 ∷ repeats 1 ∷ diff 3 2 1 ∷ from_index 9 ∷ luma 40 8 8 ∷ []

-- Five chunks for six pixels; the fourth goes back to the first colour.
picture_run :
    decode_loop 6 (starting (chunk_bytes picture))
    ≡ some (0x0a141e ∷ 0x0a141e ∷ 0x0a141e ∷ 0x0b141d ∷ 0x0a141e ∷ 0x121c26 ∷ [])
unfolding decode_loop
picture_run = refl

abbrev memory : Pmm
memory = record {
  memmap = record { base = 0x10_0000; length = 0x10_0000; type = usable } ∷ [];
  max_entries = 512;
  keep_first_page = false;
  allocations_disallowed = false;
}

abbrev picture_file : List ℕ
picture_file = file_of 3 2 4 0 picture (0 ∷ 0 ∷ 0 ∷ 0 ∷ 0 ∷ 0 ∷ 0 ∷ 1 ∷ [])

qoi_decode-file_of_example : qoi_decode memory picture_file ≡ (
    ext_mem_alloc memory (3 * 2 * 4 + 16) >>= λ r.
    ok (
      r.1,
      some (record { out = r.0 + 16; width = 3; height = 2; words = chunk_words picture [] }),
    ))
qoi_decode-file_of_example =
    qoi_decode-file_of memory 3 2 picture
      (
        (omega arith, omega arith, omega arith),
        (
          omega arith,
          (
            (omega arith, omega arith, omega arith),
            (omega arith, ((omega arith, omega arith, omega arith), tt)),
          ),
        ),
      )
      (omega arith, omega arith) (omega arith, omega arith) (omega arith) refl 4 0
      (0 ∷ 0 ∷ 0 ∷ 0 ∷ 0 ∷ 0 ∷ 0 ∷ 1 ∷ []) (inr refl) refl

-- The last chunk lacks its second byte.
abbrev cut_file : List ℕ
cut_file = take 30 picture_file

cut_file-All : All IsByte cut_file
cut_file-All = All-all IsByte (λ x. ltb x 256) (λ x e. ltb→lt x 256 e) cut_file refl

qoi_decode-SafeDecode_example : Ends (qoi_decode memory cut_file) (SafeDecode memory cut_file)
qoi_decode-SafeDecode_example = qoi_decode-SafeDecode memory cut_file refl cut_file-All
