-- ===== src/Lib.antt =====
-- Verification of the Pulse Go SDK: the client of a stream of Solana transactions over QUIC.
--
-- A client opens one connection, sends a control message, and reads an acknowledgement. On the
-- sig-first tier the server then sends datagrams, which a goroutine drains into a bounded queue for
-- `Next`; on the full-tx tier it opens a stream of length-prefixed frames, which `Next` reads.
--
-- Errors       errors.go: close codes, retry classes, terminal errors. An error value is a data type
--              with one constructor for each error that the package makes or tests for; `foreign`
--              stands for any other. Errors.Texts are their texts, Errors.Chain is what they wrap.
-- Go           What the source uses of Go: a call returns a value, an error or a panic (a slice or an
--              index out of range); byte order; `io.Reader` and `io.ReadFull`. A byte slice is a list
--              of numbers below 256.
-- Wire         frame.go. Wire.Decoder is `decoder`, with its cursor as state; Wire.Tx is
--              `DecodeFullTx` and `EncodeFullTx`; Wire.Tlv is `parseTLVs`, `putTLV` and the address
--              arrays; Wire.Frame is `DecodeFrame` and `EncodeFrameTx`; Wire.Datagram is
--              `DecodeDatagram` and the two encoders.
-- Derive       derive.go: fee payer, programs, writable accounts, compute budget.
-- Sig          pulse.go, `SigFirstSub`. The channel is a list of bounded length. Each of the three
--              `select`s of `push` is a step of its own, so that calls of `Next` fall between any
--              two; `Run` is every interleaving from a new subscription. The counters wrap at 2^64.
-- Stream       pulse.go, `FullSub`: `verifyPreamble`, and the loop of `Next` over a reader.
-- Control      pulse.go: `claimSubscription`, `readAck`, `checkInitialAck`, `checkUpdateAck`.
-- Options      options.go: the options of `Connect`, `applyOptions`, `newTLSConfig`, with certificate
--              pools opaque and `net` a parameter.
-- Message      pulse.go: `Filter`, its constructors, and `control.MarshalJSON` up to the JSON object.
-- Transport    pulse.go, `pulseConnection` and the streams. The peer is a parameter: what it answers
--              to a call, the time, and what a stream would read are functions of the calls so far. A
--              program is a function of the calls so far and of `subscriptionTaken`.
-- Client       pulse.go: `controlRoundTrip`, `SubscribeSigFirst`, `SubscribeFull`, both
--              `UpdateFilter`, `FullSub.Next`, `Close`. It puts Control, Sig, Stream and Transport
--              together; Client.RoundTrip, Client.Subscribe, Client.Admitted and Client.Once are
--              about the calls, Client.Deliver and Client.Late about what a caller gets in the end,
--              and Client.Operations about all that a caller may do, one operation after the other,
--              by way of Transport.Extends, which is about the calls that a program adds.
-- Connect      pulse.go, `Connect` and `ConnectWithToken`, and the connection check of options.go,
--              with the dial and the digest as parameters.
-- Examples     examples/fulltx/main.go and examples/sigfirst/main.go: each `main` is a program over a
--              state of dials, calls to the peer and printed lines, which `log.Fatal` ends. A line is
--              the values that `fmt` formats. The environment, `strconv.ParseBool` and base58 are
--              parameters. The steps that the drain goroutine makes are a list for each call of
--              `Next`, and for each read of the counters behind the loop of the sig-first program.
-- Tests        The inputs at which the theorems are tried.
-- Base         Tests on numbers, lists and options over the native numbers, signed integers.
--
-- Bounds and fuel. A `uint64` is a number below 2^64; lengths that the source converts to `uint16`
-- wrap at 2^16. The TLV loop has as many rounds as the input has bytes, each taking three at least.
-- The loop of the full-tx stream has fuel for its rounds, each of which takes four bytes at least;
-- more than the bytes of the stream is enough for any number of calls of `Next`.
-- A reader is the bytes that are still to come and the error behind them.
-- A time is a number of nanoseconds and a duration is signed. Sig.Window runs `push` to its end
-- between two datagrams, which takes three `select`s at most.
--
-- Not modelled: the text of a JSON object (its encoder and decoder are parameters), quic-go and the
-- adapter that passes its calls on, `net` and `crypto` (parameters), the cancellation of a context
-- but for `SigFirstSub.Next` (its deadline is modelled), the layout of printed lines, and the tests.
pub mod Base
pub mod Errors
pub mod Examples
pub mod Go
pub mod Wire
pub mod Derive
pub mod Sig
pub mod Stream
pub mod Control
pub mod Options
pub mod Message
pub mod Transport
pub mod Client
pub mod Connect
mod Tests
