-- ===== src/Task.antt =====
-- server/main.go and client/main.go: what one transfer task writes to its QUIC stream and reads from
-- it. A task is a tree of the calls it makes on the stream, each with what follows on its result.
pub mod Loss
pub mod Tracing
pub mod Server
pub mod Client
pub mod Run
pub mod Halting
pub mod Crashing
pub mod Counting
pub mod Talk
use quic_hop.Base.{
  ℕ, zero, suc, ◌+◌, List, [], ◌∷◌, length, take, drop, u64, ltb, ◌==◌, if◌then◌else◌,
}
use quic_hop.Config.{codes}

-- `fmt.Errorf("...: %w", err)`, by its text.
abbrev pub Reason : Type 0
Reason = List ℕ

-- `crash` is a panic, and `endless` a loop that has used up the rounds it was given and would go on. `read_full` is `io.ReadFull` into so many bytes; `read` is `stream.Read` into a
-- buffer of so many, which gives no byte at the end of the stream.
pub data Proc (A : Type 0) : Type 0 where
  finish : A → Proc A
  abort : Reason → Proc A
  crash : Proc A
  endless : Proc A
  write : List ℕ → Reason → Proc A → Proc A
  read_full : ℕ → Reason → (List ℕ → Proc A) → Proc A
  read : ℕ → Reason → (List ℕ → Proc A) → Proc A

infixl 5 ◌>>=◌
abbrev pub ◌>>=◌ : {A B : Type 0} → Proc A → (A → Proc B) → Proc B
finish a >>= f = f a
abort why >>= f = abort why
crash >>= f = crash
endless >>= f = endless
write bs why p >>= f = write bs why (p >>= f)
read_full n why k >>= f = read_full n why (λ bs. k bs >>= f)
read n why k >>= f = read n why (λ bs. k bs >>= f)

abbrev pub send : List ℕ → Reason → Proc (Unit {0})
send bs why = write bs why (finish tt)

infixl 5 ◌>>◌
abbrev pub ◌>>◌ : {B : Type 0} → Proc (Unit {0}) → Proc B → Proc B
m >> p = m >>= λ _. p

abbrev pub receive : ℕ → Reason → Proc (List ℕ)
receive n why = read_full n why finish

abbrev pub chunk_size : ℕ
chunk_size = 65536

-- `for received < expected { n, err := Read(buf); if n == 0 { break }; received += n }`. Each round
-- but the last reads a byte or more, so that `expected` rounds are enough: with fewer the loop may be
-- `endless`.
unfoldable pub receive_data : ℕ → ℕ → Reason → ℕ → Proc ℕ
receive_data zero expected why received = if ltb received expected then endless else finish received
receive_data (suc fuel) expected why received =
    if ltb received expected
    then read chunk_size why (λ got.
      if length got == 0
      then finish received
      else receive_data fuel expected why (u64 (received + length got)))
    else finish received

-- `for sent < len(data) { Write(data[sent:end]) }`, on the bytes still to send.
unfoldable pub send_data : ℕ → List ℕ → Reason → Proc (Unit {0})
send_data zero [] why = finish tt
send_data zero (b ∷ bs) why = endless
send_data (suc fuel) [] why = finish tt
send_data (suc fuel) (b ∷ bs) why = do
  send (take chunk_size (b ∷ bs)) why
  send_data fuel (drop chunk_size (b ∷ bs)) why
