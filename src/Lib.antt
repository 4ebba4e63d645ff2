-- ===== src/Lib.antt =====
-- A verification library of go-zmodem, the ZMODEM file transfer protocol in Go.
--
-- The program is a Session over a transport: a transportWriter that escapes bytes, a
-- transportReader that decodes them, headers and data subpackets on top of the two, and the state
-- machines of the sender and the receiver, which call the application's FileHandler.
--
-- Parts and files:
--   Constants          constants.go: frame types, end markers, capabilities
--   Crc                crc.go: CRC-16 by table, CRC-32; Crc/Residue16 and Residue32 are laws
--   Escape             escape.go: the table of each escape mode
--   Bufio              Go's bufio, as far as it is used: Output and Input
--   Writer             writer.go: transportWriter; Writer/Encode says what reaches the wire
--   Reader             reader.go: transportReader; Reader/Decode reads what Encode wrote;
--                      Total, ScanTotal and Shrinks are about its loops
--   Frame              frame.go: headers; Encode, Scan, RoundTrip, HexRoundTrip, Total and
--                      Shrinks are proofs
--   Subpacket          subpacket.go: data subpackets and the detector of merged ones
--   Text, Source       what the code uses of strings, strconv and fmt on ASCII bytes; the reader of
--                      an offered file, which the application supplies
--   FileInfo           fileinfo.go: the metadata of a file in ZFILE; RoundTrip and Wire are proofs
--   Session            zmodem.go: Config (`Settings` as supplied, `Config` behind defaults),
--                      NewSession, Send, Receive, Abort; Ranges and Exclusive are proofs
--   Receiver           receiver.go: receiveDataSubpackets, recoverData, sendAttn, sendZRINIT;
--                      Data is the state srxData of runReceiver, FileWait the others and the
--                      loop; Grew, Append, Prefix, Decides, Recover, Total, DataGrew, Waiting and Whole
--                      are proofs
--   Sender             sender.go: the state of runSender, processZRINIT, recvHeaderRetry, seekFile;
--                      FileCrc is computeFileCRC, Stream the state stxData, Run the other states
--                      and the loop; FileCrc/Prefix, Silent, Retry, BlockSize and Total are
--                      proofs
--   Transfer           sender.go and receiver.go against each other: Info the offer of a file, Accept
--                      the answer to it, Transfer itself the data, End the end of the file
--   */Ends             that the calls of a part come to an end: they never run out of fuel
--   Prelude, Monad     shared names and lemmas; a method is a function of the state that
--                      returns a result or an error, with the state after it in both cases
--
-- A Go method `recvHeader` is the definition `recv_header`; a struct is a record with the same
-- fields. A byte is a number below 256, and operations on bytes and on uint16 and uint32 write
-- their wrap-around out. Offsets are natural numbers: no file reaches the bounds of int64.
--
-- The transport is a parameter. Its input is a list of items: a byte, a gap between two Reads (a
-- Read returns what is in front of it, so that it bounds what is buffered), or a fault of a Read,
-- a timeout included. Its output is the list of the bytes that it took, with the number of Writes
-- that still succeed. The application is a parameter, too: the answers of its file writer, the
-- readings of the clock and the life of the context are lists and numbers in World, and World
-- records the calls. A Write of the file that fails may take some of the bytes. A Read or a Write
-- of the application may fail with any error but the one that stands for a loop without an end.
--
-- Loops run on fuel where they are not structural. Each round of zdlRead, scanForPad,
-- recvSubpacket and receiveDataSubpackets reads a byte of the input, so that the fuel is one more
-- than the length of the input. The waits of the sender count a retry in each round but the last,
-- so that their fuel is one more than the retries that are left; the loop of computeFileCRC takes
-- bytes of the file or an answer of its reader, and the loop that streams a file takes one of these
-- or an item of the input. A peer can keep the loops of runSender and runReceiver for ever: their
-- fuel is an argument.
--
-- Not modelled: read deadlines (a timeout is a fault of the input), logging, Header.String, the
-- mutex of the session, the time that a pause in the attention sequence takes, SanitizeFilename
-- (a call of filepath.Base). File names are ASCII: what strings.ToLower makes of other characters is
-- not modelled.
mod Prelude
mod Monad
pub mod Constants
pub mod Crc
pub mod Escape
pub mod Text
pub mod Source
pub mod FileInfo
mod Bufio
pub mod Writer
pub mod Reader
pub mod Frame
pub mod Subpacket
pub mod Session
pub mod Receiver
pub mod Sender
pub mod Transfer
mod Samples
