-- ===== src/Netbuf.antt =====
-- sockutil.c: the buffer for reading from the socket. A position is the offset from `read_netbuf`. What
-- the socket holds are the bytes that `read` has not given yet, and `counts` says how many bytes each
-- call of `read` is ready to give, 0 for an end or an error; `select` finds nothing after the last.
pub mod Queue
pub mod Put
pub mod Read
pub mod Sent
pub mod Write
pub mod Written
use euskal_irc_services_bdd.Base.{
  ℕ, zero, suc, ◌+◌, ◌-◌, Bool, true, false, ◌&&◌, ◌||◌, Option, none, some, List, [], ◌∷◌, ◌++◌,
  ltb, leb, ◌==◌, if◌then◌else◌, Bytes, length, take, drop, get_or,
}
use Prim.Native.Nat.{min}

pub record Netbuf : Type 0 where
  pub read_netbuf : List ℕ
  pub read_curpos : ℕ
  pub read_bufend : ℕ

-- The buffer and the bytes that are still in the socket
pub record Input : Type 0 where
  pub netbuf : Netbuf
  pub socket : Bytes

unfoldable pub read_buffer_len : Netbuf → ℕ
read_buffer_len r =
    if leb r.read_curpos r.read_bufend
    then r.read_bufend - r.read_curpos
    else r.read_bufend + length r.read_netbuf - r.read_curpos

unfoldable pub is_full : Netbuf → Bool
is_full r =
    r.read_bufend + 1 == r.read_curpos
    || (r.read_curpos == 0 && r.read_bufend + 1 == length r.read_netbuf)

unfoldable pub max_read : Netbuf → ℕ
max_read r =
    if ltb r.read_bufend r.read_curpos
    then r.read_curpos - 1 - r.read_bufend
    else if r.read_curpos == 0
    then length r.read_netbuf - r.read_bufend - 1
    else length r.read_netbuf - r.read_bufend

-- The position after `n` more bytes, back at the start behind the last cell
abbrev pub advance : ℕ → ℕ → ℕ → ℕ
advance size pos n = if pos + n == size then 0 else pos + n

abbrev pub write_at : ℕ → Bytes → List ℕ → List ℕ
write_at pos bytes cells = take pos cells ++ (bytes ++ drop (pos + length bytes) cells)

-- `nread = read(fd, read_bufend, maxread)` with these bytes, and the move of `read_bufend`
unfoldable pub store : Bytes → Netbuf → Netbuf
store bytes r = record r {
  read_netbuf = write_at r.read_bufend bytes r.read_netbuf;
  read_bufend = advance (length r.read_netbuf) r.read_bufend (length bytes);
}

-- The loop that reads while there is room and the socket has data
unfoldable pub receive : List ℕ → Input → Input
unfolding is_full max_read store
receive [] s = s
receive (n ∷ counts) s =
    let given = min n (min (max_read s.netbuf) (length s.socket)) in
    let rest =
      receive counts
        (record { netbuf = store (take given s.socket) s.netbuf; socket = drop given s.socket }) in
    if is_full s.netbuf then s else if given == 0 then s else rest

-- `buffered_read_one` for a descriptor that is not negative: the byte, or `none` for EOF
unfoldable pub read_one : Netbuf → Option ℕ × Netbuf
read_one r = if r.read_curpos == r.read_bufend then (none, r) else (
  some (get_or r.read_netbuf r.read_curpos 0),
  record r { read_curpos = advance (length r.read_netbuf) r.read_curpos 1 },
)

unfoldable pub buffered_read_one : List ℕ → Input → Option ℕ × Input
unfolding receive read_one
buffered_read_one counts s =
    let t = receive counts s in let (c, r) = read_one t.netbuf in (c, record t { netbuf = r })
