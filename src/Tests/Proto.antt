-- ===== src/Tests/Proto.antt =====
-- Frames of a message that is printed as it stands.
use weave_fs.Base.{◌^◌, some, [], ◌++◌, Bytes, codes, take, ◌≡◌, refl, arith}
use weave_fs.Exec.{ok, err, short_read, header_too_long}
use weave_fs.Disk.{reader_of}
use weave_fs.Store.Version.{Json, IsRoundTrip}
use weave_fs.Proto.Codec.{put_uint32, frame, read_message}
use weave_fs.Proto.Codec.Laws.{read_message-frame, read_message_truncated, read_message_too_long}

abbrev plain : Json Bytes
plain = record { marshal = λ b. some b; unmarshal = λ b. some b }

plain-IsRoundTrip : IsRoundTrip plain
plain-IsRoundTrip = record { unmarshal-marshal = λ a b e. cc e }

abbrev framed : Bytes
framed = put_uint32 2 ++ codes "{}"

framed_lem : frame plain (codes "{}") ≡ ok framed
unfolding frame put_uint32
framed_lem = refl

read_message-frame_example :
    read_message plain (record (reader_of (codes "blob")) { bytes = framed ++ codes "blob" })
    ≡ ok (codes "{}", reader_of (codes "blob"))
read_message-frame_example =
    read_message-frame plain plain-IsRoundTrip (codes "{}") framed (reader_of (codes "blob"))
      framed_lem

read_message_truncated_example :
    read_message plain (record (reader_of []) { bytes = take 5 framed }) ≡ err short_read
unfolding put_uint32
read_message_truncated_example =
    read_message_truncated plain (codes "{}") framed 5 (reader_of []) framed_lem (omega arith)

read_message_too_long_example :
    read_message plain (record (reader_of (codes "x")) { bytes = put_uint32 (2 ^ 31) ++ codes "x" })
    ≡ err header_too_long
read_message_too_long_example =
    read_message_too_long plain (2 ^ 31) (reader_of (codes "x")) (omega arith) (omega arith)
