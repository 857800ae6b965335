-- ===== src/Io.antt =====
-- internal/io/io.go: the reader of framed messages (Io/Reader), the identifiers of messages
-- (Io/Ids). Io/Text is what these use of Go's `strings`, `strconv`, `bufio` and `io`.
pub mod Text
pub mod Reader
pub mod Ids
pub mod Diverter
pub mod Logs
