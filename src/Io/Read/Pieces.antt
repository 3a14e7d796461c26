-- ===== src/Io/Read/Pieces.antt =====
-- `resume_read` of src/io/client_base.cpp on the last field of a structure, a fixed one, that
-- arrives in pieces: several segments, each shorter than the field.
use theme_srv.Common.{
  ℕ, zero, suc, ◌+◌, ◌^◌, ◌<◌, ◌≡◌, refl, ap, true, List, [], ◌∷◌, ◌++◌, Bytes, length, arith,
}
use theme_srv.Protocol.NetStruct.{NetField, NetStruct, is_fixed, field_sz, total_sz}
use theme_srv.Protocol.Message.{IsFixedRun}
use theme_srv.Io.Cipher.{Cipher, IsStream}
use theme_srv.Io.Socket.{Arrival}
use theme_srv.Io.ClientBase.{ClientBase}
use theme_srv.Io.Read.{hang, endless, resume_read, handled, handle_read}
use theme_srv.Io.Read.Buffer.{in_segments}
use theme_srv.Io.Read.Passes.{IsAt}
use theme_srv.Io.Read.Partway.{IsPartway, pass_piece, pass_complete}

-- Each piece is not empty and shorter than the field.
abbrev pub ArePieces : ℕ → List Bytes → Type 0
ArePieces n [] = Unit
ArePieces n (b ∷ bs) = (0 < length b) × (length b < n) × ArePieces n bs

abbrev pub total_length : List Bytes → ℕ
total_length [] = 0
total_length (b ∷ bs) = length b + total_length bs

module _ {ev : Cipher} (law : IsStream ev) (ns : NetStruct) (pre : List NetField) (f : NetField)
    (eq : ns.fields ≡ pre ++ f ∷ []) (fx : is_fixed f.type ≡ true)
    (bound : field_sz f < 2 ^ 32) where
  module _ (small : total_sz ns.fields < 2 ^ 32) (p : Bytes) (hp : IsFixedRun pre p) where
    resume_read_complete :
        (fuel : ℕ) (cli : ClientBase ev)
        → IsPartway ns (length pre) (field_sz f) p cli
        → resume_read fuel cli ≡ endless
    unfolding resume_read
    resume_read_complete zero cli at = refl
    resume_read_complete (suc fuel) cli at =
        let (cli', call, at') = pass_complete law ns pre f eq fx bound small p hp cli at in
        rw call (resume_read_complete fuel cli' at')

    resume_read_pieces :
        (fuel : ℕ) (cli : ClientBase ev) (k : ℕ) (pieces : List Bytes) (rest : List Arrival)
        → IsPartway ns (length pre) k p cli
        → ArePieces (field_sz f) pieces
        → k + total_length pieces ≡ field_sz f
        → cli.socket.arrivals ≡ in_segments pieces rest
        → resume_read fuel cli ≡ endless
    unfolding resume_read
    resume_read_pieces fuel cli k [] rest at are sum arr =
        let there : k ≡ field_sz f = omega arith in resume_read_complete fuel cli (rw there at at)
    resume_read_pieces zero cli k (b ∷ bs) rest at are sum arr = refl
    resume_read_pieces (suc fuel) cli k (b ∷ bs) rest at are sum arr =
        let (cli', call, at', arr') =
          pass_piece law ns pre f eq fx bound small p hp cli k b (in_segments bs rest) at are.0
            are.1 (omega arith) arr in
        rw call (resume_read_pieces fuel cli' (k + length b) bs rest at' are.2 (omega arith) arr')

    -- Suppose that a cipher works byte by byte and that a client is about to read the last field
    -- of a structure of less than 4 GiB, a fixed one, with the bytes `p` of the fixed fields
    -- before it in its buffer. If the field arrives in pieces, segments that are not empty and
    -- each shorter than the field, `handle_read` does not end: no number of rounds is enough.
    pub handle_read-ArePieces :
        (fuel : ℕ) (cli : ClientBase ev) (pieces : List Bytes) (rest : List Arrival)
        → IsAt ns (length pre) p cli
        → ArePieces (field_sz f) pieces
        → total_length pieces ≡ field_sz f
        → cli.socket.arrivals ≡ in_segments pieces rest
        → handle_read fuel cli ≡ hang
    unfolding handle_read
    handle_read-ArePieces fuel cli pieces rest at are sum arr = ap handled (
        resume_read_pieces fuel cli 0 pieces rest
          (record {
            struct_is = at.struct_is;
            field_is = at.field_is;
            offset_is = at.offset_is;
            holds = at.holds;
            no_larger = at.no_larger;
          })
          are (omega arith) arr)
