-- ===== src/Mbuf/Tests.antt =====
-- Chains of mbufs on concrete inputs.
use microkernel_book.Base.{ℕ, ◌≡◌, refl, arith, List, [], ◌∷◌, ◌++◌, length}
use microkernel_book.Mbuf.Ops.{
  Mbuf, bytes_at, mbuf_append_bytes, mbuf_len_one, mbuf_read, mbuf_peek, mbuf_copy_one,
  mbuf_truncate, mbuf_clone, clone_loop,
}
use microkernel_book.Mbuf.Contents.{contents, AllInBounds}
use microkernel_book.Mbuf.Append.{Holds, mbuf_append_bytes-Holds}
use microkernel_book.Mbuf.Read.{ReadOf, mbuf_read-ReadOf}

-- The byte at each place is the place.
abbrev counting : ℕ → ℕ
counting i = i

-- The bytes 0, 1 and 2, and the bytes 4 and 5 of an mbuf whose first four bytes are read.
abbrev first : Mbuf
first = record { offset = 0; offset_end = 3; bytes = counting }

abbrev second : Mbuf
second = record { offset = 4; offset_end = 6; bytes = counting }

abbrev fresh_second : Mbuf
fresh_second = record { offset = 0; offset_end = 2; bytes = counting }

abbrev chain : List Mbuf
chain = first ∷ second ∷ []

abbrev unread : List Mbuf
unread = first ∷ fresh_second ∷ []

chain-AllInBounds : AllInBounds chain
chain-AllInBounds = ((omega arith, omega arith), ((omega arith, omega arith), tt))

unread-AllInBounds : AllInBounds unread
unread-AllInBounds = ((omega arith, omega arith), ((omega arith, omega arith), tt))

-- A copy of a piece that is read in part holds zeros in place of its bytes.
peek_second : contents (mbuf_peek (second ∷ []) 2) ≡ 0 ∷ 0 ∷ []
unfolding mbuf_peek mbuf_copy_one mbuf_len_one bytes_at
peek_second = refl

-- A clone has the first piece alone.
clone_chain : contents (mbuf_clone first (second ∷ [])) ≡ 0 ∷ 1 ∷ 2 ∷ []
unfolding mbuf_clone clone_loop bytes_at
clone_chain = refl

-- Nothing is cut where a piece ends.
truncate_chain : mbuf_truncate chain 3 ≡ chain
unfolding mbuf_truncate mbuf_len_one
truncate_chain = refl

mbuf_append_bytes-Holds_example :
    Holds
      (contents chain ++ bytes_at counting 10 2)
      (mbuf_append_bytes first (second ∷ []) counting 10 2)
mbuf_append_bytes-Holds_example =
    mbuf_append_bytes-Holds first (second ∷ []) counting 10 2 chain-AllInBounds

chain-length : length (contents chain) ≡ 5
unfolding bytes_at
chain-length = refl

mbuf_read-ReadOf_example : ReadOf 4 (contents chain) (mbuf_read 4 first (second ∷ []) 4)
mbuf_read-ReadOf_example = mbuf_read-ReadOf 4 first (second ∷ []) 4 (omega arith) chain-AllInBounds
