-- ===== src/Bufio/Input.antt =====
-- `bufio.Reader` over the transport, as one list: the buffered bytes come first, and each `gap`
-- is a Read of the transport that has not been made yet, with the bytes that it will return behind
-- it. `fault` is a Read that returns an error, and the end of the list is the end of the stream.
use go_zmodem.Prelude.{ℕ, List, [], ◌∷◌, Bytes}
use go_zmodem.Monad.{Fault, eof, ok, err, M, read_fault}

pub data Item : Type 0 where
  byte : ℕ → Item
  gap : Item
  fault : Fault → Item

-- `ReadByte`
unfoldable pub read_byte : M (List Item) ℕ
read_byte [] = err (read_fault eof) []
read_byte (byte b ∷ items) = ok b items
read_byte (gap ∷ items) = read_byte items
read_byte (fault e ∷ items) = err (read_fault e) items

-- What `Peek(Buffered())` returns.
unfoldable pub buffered : List Item → Bytes
buffered [] = []
buffered (byte b ∷ items) = b ∷ buffered items
buffered (gap ∷ items) = []
buffered (fault e ∷ items) = []

-- `Discard(Buffered())`
unfoldable pub discard_buffered : List Item → List Item
discard_buffered [] = []
discard_buffered (byte b ∷ items) = discard_buffered items
discard_buffered (gap ∷ items) = gap ∷ items
discard_buffered (fault e ∷ items) = fault e ∷ items
