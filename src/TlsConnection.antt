-- ===== src/TlsConnection.antt =====
-- ladder/src/TlsConnection.cpp on Linux: a connection whose bytes pass through an engine with two
-- memory buffers. The engine, which is OpenSSL's, is a parameter.
pub mod Documented
pub mod Sound
pub mod Streams
pub mod Steps
pub mod Feeds
pub mod Run
pub mod Drain
mod Tests
use ladder.Prelude.{
  ◌-◌, ℕ, zero, suc, Bool, true, false, not, ◌&&◌, Option, none, some, List, [], ◌∷◌, ◌++◌, length,
  take, drop, if◌then◌else◌,
}
use ladder.Buffer.{Buffer, empty_buffer, write, read_all}
use ladder.Buffer.Io.{
  WriteReply, ReadReply, End, returned, failed, exited, waiting, read_buffer_from_fd,
}
use ladder.Channel.{set_epoll_edge_triggered}
use ladder.Connection.{
  Connection, Status, running, ended, starved, new_connection, init, flush, enable_by, put_out,
}

pub data SslError : Type 0 where
  no_error want_read want_write other_error : SslError

-- What is called of OpenSSL on an `Ssl`. A result that is not positive is `none`; `do_handshake`
-- tells whether the result is positive. `get_error` is about the last call.
pub record Engine (S : Type 0) : Type 0 where
  pub is_init_finished : S → Bool
  pub do_handshake : S → Bool × S
  pub ssl_write : List ℕ → S → Option ℕ × S
  pub ssl_read : ℕ → S → Option (List ℕ) × S
  pub get_error : S → SslError
  pub bio_write : List ℕ → S → Option ℕ × S
  pub bio_read : ℕ → S → Option (List ℕ) × S

abbrev pub max_buffer_size : ℕ
max_buffer_size = 1024

-- `answers` is what the socket answers to the loops of writes to come. `fed` notes what was given to
-- the engine from the socket.
pub record TlsConnection (S : Type 0) : Type 0 where
  pub base : Connection
  pub engine : S
  pub is_server : Bool
  pub pre_write_buffer : Buffer
  pub answers : List (List WriteReply)
  pub fed : List ℕ

abbrev pub first_answers : List (List WriteReply) → List WriteReply
first_answers [] = []
first_answers (ws ∷ more) = ws

abbrev other_answers : List (List WriteReply) → List (List WriteReply)
other_answers [] = []
other_answers (ws ∷ more) = more

module _ {S : Type 0} where
  abbrev pub with_status : Status → TlsConnection S → TlsConnection S
  with_status status t = record t { base = record (t.base) { status = status } }

  -- The constructor; the engine is fresh from `SSL_new`.
  pub new_tls_connection : ℕ → S → Bool → List (List WriteReply) → TlsConnection S
  new_tls_connection fd engine server answers = record {
    base = new_connection fd;
    engine = engine;
    is_server = server;
    pre_write_buffer = empty_buffer;
    answers = answers;
    fed = [];
  }

  pub init_tls : TlsConnection S → TlsConnection S
  unfolding init set_epoll_edge_triggered
  init_tls t =
      let c = init t.base in
      if t.is_server
      then record t { base = c }
      else record t { base = record c { channel = set_epoll_edge_triggered false c.channel } }

  -- `EnableWrite(Connection::WriteBuffer())`.
  pub post : TlsConnection S → TlsConnection S
  unfolding flush enable_by
  post t =
      let (how, c) = flush (first_answers t.answers) t.base in
      record t { base = enable_by how c; answers = other_answers t.answers }

module _ {S : Type 0} (e : Engine S) where
  -- What the engine has for the peer goes to the output buffer.
  pub encrypt : ℕ → TlsConnection S → TlsConnection S
  unfolding put_out
  encrypt zero t = with_status starved t
  encrypt (suc fuel) t =
      let (out, s) = e.bio_read max_buffer_size t.engine in
      elim out [
        | none ↦ record t { engine = s }
        | some bytes ↦ encrypt fuel (record t { engine = s; base = put_out bytes t.base })
      ]

  -- What the engine has for the program goes to the input buffer.
  pub decrypt : ℕ → TlsConnection S → TlsConnection S
  decrypt zero t = with_status starved t
  decrypt (suc fuel) t =
      let (out, s) = e.ssl_read max_buffer_size t.engine in
      elim out [
        | none ↦ record t { engine = s }
        | some bytes ↦ decrypt fuel (record t {
          engine = s;
          base = record (t.base) { read_buffer = write bytes t.base.read_buffer };
        })
      ]

  -- The loop of `Send`, which leaves what is left where SSL_write fails.
  pub write_all : ℕ → ℕ → List ℕ → TlsConnection S → TlsConnection S
  unfolding encrypt
  write_all rounds fuel [] t = t
  write_all zero fuel (c ∷ cs) t = with_status starved t
  write_all (suc rounds) fuel (c ∷ cs) t =
      let (n, s) = e.ssl_write (c ∷ cs) t.engine in
      elim n [
        | none ↦ record t { engine = s }
        | some k ↦ write_all rounds fuel (drop k (c ∷ cs)) (encrypt fuel (record t { engine = s }))
      ]

  abbrev pub while_alive : (TlsConnection S → TlsConnection S) → TlsConnection S → TlsConnection S
  while_alive f t = elim t.base.status [ running ↦ f t | _ ↦ t ]

  pub send : ℕ → List ℕ → TlsConnection S → TlsConnection S
  unfolding write_all post
  send fuel buf t =
      if t.base.shut_down
      then t
      else if e.is_init_finished t.engine
      then while_alive post (write_all (length buf) fuel buf t)
      else record t { pre_write_buffer = write buf t.pre_write_buffer }

  pub on_ssl_handshake_finished : ℕ → TlsConnection S → TlsConnection S
  unfolding send
  on_ssl_handshake_finished fuel t =
      let (buf, b) = read_all t.pre_write_buffer in
      send fuel buf (record t { pre_write_buffer = b })

  pub handle_error : ℕ → SslError → TlsConnection S → Bool × TlsConnection S
  unfolding encrypt post
  handle_error fuel no_error t = (true, t)
  handle_error fuel want_read t = (true, while_alive post (encrypt fuel t))
  handle_error fuel want_write t = (true, while_alive post (encrypt fuel t))
  handle_error fuel other_error t = (false, t)

  -- `HandleSslError`, by whether the result is positive; whether its own result is not negative.
  pub handle_ssl_error : ℕ → Bool → TlsConnection S → Bool × TlsConnection S
  unfolding handle_error
  handle_ssl_error fuel true t = (true, t)
  handle_ssl_error fuel false t = handle_error fuel (e.get_error t.engine) t

  -- One call of SSL_do_handshake and what follows it.
  pub shake : ℕ → TlsConnection S → Bool × TlsConnection S
  unfolding on_ssl_handshake_finished handle_ssl_error
  shake fuel t =
      let (done, s) = e.do_handshake t.engine in
      let shaken = record t { engine = s } in
      if done
      then handle_ssl_error fuel true (on_ssl_handshake_finished fuel shaken)
      else handle_ssl_error fuel false shaken

  pub shake_if_needed : ℕ → TlsConnection S → Bool × TlsConnection S
  unfolding shake
  shake_if_needed fuel t = if e.is_init_finished t.engine then (true, t) else shake fuel t

  pub decrypt_if_finished : ℕ → TlsConnection S → Bool × TlsConnection S
  unfolding decrypt handle_ssl_error
  decrypt_if_finished fuel t =
      if e.is_init_finished t.engine
      then handle_ssl_error fuel false (decrypt fuel t)
      else (true, t)

  -- Nothing follows a failure or an exit.
  abbrev pub go_on :
      (TlsConnection S → Bool × TlsConnection S) → Bool × TlsConnection S → Bool × TlsConnection S
  go_on next (false, t) = (false, t)
  go_on next (true, t) = elim t.base.status [ running ↦ next t | _ ↦ (true, t) ]

  -- The loop of `ReadFromBuffer`; a write to a memory buffer that fails ends the program.
  pub read_from_buffer : ℕ → ℕ → List ℕ → TlsConnection S → Bool × TlsConnection S
  unfolding shake_if_needed decrypt_if_finished
  read_from_buffer rounds fuel [] t = (true, t)
  read_from_buffer zero fuel (c ∷ cs) t = (true, with_status starved t)
  read_from_buffer (suc rounds) fuel (c ∷ cs) t =
      let (n, s) = e.bio_write (c ∷ cs) t.engine in
      elim n [
        | none ↦ (true, with_status ended (record t { engine = s }))
        | some k ↦ go_on (read_from_buffer rounds fuel (drop k (c ∷ cs))) (
            go_on (decrypt_if_finished fuel)
              (shake_if_needed fuel (record t { engine = s; fed = t.fed ++ take k (c ∷ cs) })))
      ]

  -- What `ReadBuffer` returns: -2, or what the read of the socket returned.
  pub data Returns : Type 0 where
    minus_two : Returns
    as_read : End → Returns

  abbrev returns_by : End → Bool → Returns
  returns_by how true = as_read how
  returns_by how false = minus_two

  -- The bytes read go to the engine, also where the read failed behind them.
  pub read_by : ℕ → End → Buffer → TlsConnection S → Returns × TlsConnection S
  unfolding read_from_buffer
  read_by fuel (exited e) b t = (as_read (exited e), with_status ended t)
  read_by fuel waiting b t = (as_read waiting, with_status starved t)
  read_by fuel how b t =
      let str = (read_all b).0 in
      let (ok, t') = read_from_buffer (length str) fuel str t in (returns_by how ok, t')

  -- `ReadBuffer`, with what the socket answers to the reads.
  pub read_buffer : ℕ → List ReadReply → TlsConnection S → Returns × TlsConnection S
  unfolding read_by
  read_buffer fuel rs t = let (how, b) = read_buffer_from_fd rs empty_buffer in read_by fuel how b t

  -- `WriteBuffer`: a client goes on with the handshake first.
  pub write_buffer : ℕ → List WriteReply → TlsConnection S → End × TlsConnection S
  unfolding shake flush
  write_buffer fuel ws t =
      let t' =
        if not t.is_server && not (e.is_init_finished t.engine) then (shake fuel t).1 else t in
      let (how, c) = flush ws t'.base in (how, record t' { base = c })
