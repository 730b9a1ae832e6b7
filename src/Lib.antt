-- ===== src/Lib.antt =====
-- Verification of the backup system: the archive format, its codecs, hashes and
-- ciphers, and the server that keeps archives of its users.
--
-- The program packs a directory into one stream of bytes, compresses it, encrypts it, and writes it
-- behind a header of 112 bytes; restoring undoes the stages in the reverse order. The stages work
-- on files; here a file is the list of its bytes, a stage is a function from its input to its
-- output, and a thrown BackupError is `err` with the text of the message. The streams that read
-- are functions from the bytes that are left to a value and the rest (`Reader`).
--
-- The files and the code that they model, in DataBackup/core unless another place is named:
--   Base              the natural numbers as the program's integers, lists with native lengths,
--                     bit operations, and the results of fallible operations
--   Stream            common.cpp: exact reads, little-endian words, strings, copyBytes
--   Stream/Post       postconditions of readers on every input
--   Stream/Consumed   what a reader accepts, with the bytes that it takes; Stream/Readers has the
--                     readers of common.cpp
--   Format            libs/core.hpp: the algorithm identifiers and ArchiveInfo
--   Archive           archive.cpp: writeArchiveHeader, readArchiveHeader
--   Entry             entry.cpp: writeEntryMetadata, readEntryMetadata
--   Pack              pack.cpp: packStream, packIndex, readStreamEntries, readIndexEntries,
--                     readPackedEntries; the data of source files and the check of a hard link are parameters
--   Rle               compress_rle.cpp: rleCompress with its lambdas, rleDecompress
--   Compression       compress_rle.cpp: compressStage, decompressStage; the Huffman codec is a
--                     parameter
--   Lz77              compress_lz77.cpp: token sequences (Lz77), class Lz77Encoder (Lz77/Encoder),
--                     decodeBlock (Lz77/Decoder), lz77Compress and lz77Decompress (Lz77/Stage)
--   Sha256            sha256.cpp: class Sha256, class HmacSha256, hmacFile, shaFileRange
--   Crypto            crypto.cpp: deriveKey, ChaCha20, AES-256 in counter mode, cryptStage
--   Engine            engine.cpp, archive.cpp: BackupEngine::create from the packed file on,
--                     withDecodedArchive up to the packed file, archiveAuthentication
--   Entry/Rules       entry.cpp: safeArchivePath, validateEntries; Paths and Shape say what a safe path
--                     and a tree of entries are without the code that tests them
--   Network           DataBackup/network/io.cpp: words, strings and frames of the wire
--   Network/Accounts  DataBackup/network/auth_store.cpp: the user database, backup metadata
--   Network/Messages  DataBackup/network/session.cpp: the payloads of requests and answers
--   Network/Session   DataBackup/network/session.cpp: the handlers of handleSession, handleUpload and
--                     handleDownload; the moves of a server with its connections (Dispatch)
--   Tests             examples of the theorems and test vectors of the standards
--
-- Names follow the source in snake_case: `rle_compress` is rleCompress, `Lz77.Encoder.insert` is
-- Lz77Encoder::insert. State that methods change is passed explicitly (`Sha256`, `RleState`,
-- `Lz77Encoder`). Integers are natural numbers; where a machine word wraps around, the definition
-- takes the remainder. A signed time is the 64-bit pattern that is stored.
--
-- Loops with a bound that is not structural run on fuel: the bytes still wanted, or the bytes that
-- are left, since each round takes one at least. `out_of_fuel` is the outcome of a loop that ran
-- out; it is no outcome of the program, and the theorems on complete operations exclude it. The
-- RLE encoder and the ciphers read buffers of 1 MiB; RLE keeps its state across them, so its
-- buffers are one list here, while the loops of copyBytes, hmacFile, shaFileRange and cryptStage
-- keep their buffers.
--
-- The server is a state (`Server`: the file of the accounts, the counts of activeSessions, the stored
-- backups, each as the bytes of its .meta and .bak files) with a list of connections (`Connection`: the variables of handleSession, and of
-- handleUpload while an upload is under way). A frame is handled in one step; frames of different
-- connections interleave freely, and a connection can close at any time. Random bytes and the clock
-- are arguments of a step. Where identifiers for a new backup run out, the step has no outcome.
--
-- Not modelled: cancellation and progress callbacks, failures of the operating system, temporary
-- files and the atomic commit of an output, the scan of a directory, restoration, the Huffman
-- codec (a parameter of the stages), automatic backups, polling, timeouts and TLS, the network
-- client, the command line and the graphical interface. The security of the ciphers and of the hash
-- is no subject of the theorems.
pub mod Base
pub mod Stream
pub mod Rle
pub mod Lz77
pub mod Network
pub mod Compression
pub mod Format
pub mod Archive
pub mod Engine
pub mod Entry
pub mod Pack
pub mod Sha256
pub mod Crypto
pub mod Tests
