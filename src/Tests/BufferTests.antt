-- ===== src/Tests/BufferTests.antt =====
-- net/buffer.cpp at concrete inputs.
use libight.Prelude.{ℕ, ◌≡◌, refl, List, [], ◌∷◌, some}
use libight.Prelude.Bytes.{Bytes, codes}
use libight.Common.Error.{ErrorOr}
use libight.Net.Buffer.{readn, readline, read_uint, write_uint16}
use libight.Net.Buffer.Libevent.{flat}
use libight.Net.Buffer.Contents.{readn_contents, readline_contents, read_uint_contents}
use libight.Net.Buffer.Refines.{readn_lem, readline_lem, read_uint_lem}
use libight.Tests.Chunked.{chunked}

abbrev two_chunks : List Bytes
two_chunks = codes "ab" ∷ codes "c\nd" ∷ []

readn_lem_example :
    (out : Bytes) × (c : List Bytes) × (readn chunked two_chunks 3 ≡ some (out, c))
    × ◌≡◌ {A = Bytes × Bytes} (out, flat c) (readn_contents (flat two_chunks) 3)
readn_lem_example = readn_lem chunked two_chunks 3

readline_lem_example :
    (line : ErrorOr Bytes) × (c : List Bytes) × (readline chunked two_chunks 100 ≡ some (line, c))
    × ◌≡◌ {A = ErrorOr Bytes × Bytes} (line, flat c) (readline_contents (flat two_chunks) 100)
readline_lem_example = readline_lem chunked two_chunks 100

read_uint_lem_example :
    (r : ErrorOr ℕ) × (c : List Bytes) × (read_uint chunked 4 two_chunks ≡ some (r, c))
    × ◌≡◌ {A = ErrorOr ℕ × Bytes} (r, flat c) (read_uint_contents 4 (flat two_chunks))
read_uint_lem_example = read_uint_lem chunked two_chunks 4

written : write_uint16 chunked [] 513 ≡ some ((2 ∷ 1 ∷ []) ∷ [])
unfolding write_uint16
written = refl
