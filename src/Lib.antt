-- ===== src/Lib.antt =====
-- opengnk: a proxy that gives the Gonka inference network an OpenAI-compatible API.
--
-- A chat request passes through the sanitizer (internal/sanitize), which replaces what its
-- classifiers find sensitive by tokens, and is sent upstream; the response, whole or as a stream,
-- is searched for tokens, and the originals are put back. The upstream client (internal/upstream)
-- discovers endpoints, picks one for each request, and signs it with the next wallet of the pool
-- (internal/wallet).
--
-- Text and its children: Go strings as lists of bytes, and what the code uses of the standard
-- library: prefixes, strings.ReplaceAll, slices, fmt's %06d, and maps from string to string as
-- association lists. An index out of range, where Go panics, is `none`.
--
-- Sanitize.Token, Sanitize.TokenMap (internal/sanitize/sanitize.go): the tokens, `TokenMap.register`
-- with `globalCounter`, and `TokenMap.Restore`. Go's order of iteration over a map is arbitrary, so
-- `restore` takes the entries in the order in which the loop meets them. A redacted text is
-- specified by the pieces of Sanitize.TokenMap.Pieces. A token's number is printed with twenty
-- places at most, which is enough for a uint64.
--
-- Sanitize.Span, Sanitize.Spans (internal/sanitize/classifier.go and sanitize.go): `validSpans`,
-- `sortSpansDesc`, `deduplicateSpans`. The sort is Prelude.Sort.
--
-- Sanitize.Redact (internal/sanitize/sanitize.go): `runClassifiers`, `redactText`,
-- `redactTextWithNER`, `RestoreBytes`. Goroutines finish in an arbitrary order and the budget may
-- end first: `run_classifiers` takes a list of such events.
--
-- Sanitize.Stream (internal/sanitize/stream.go and the copy loop of internal/api/handler.go):
-- `RestoringReader.Read` over a list of what the source returns, with an order of the token map's
-- entries for each call of restoreBytes. The copy loop takes fuel; one
-- round for each byte and each event that is left is enough.
--
-- LlmClassifier (internal/sanitize/llmclassifier/llmclassifier.go): from the model's reply to the
-- spans. The reply and the decoding of JSON are arguments. The search for a value takes fuel; one
-- round for each byte of the text and one more is enough. Text.Trim has strings.Index, LastIndex
-- and TrimSpace.
--
-- Wallet (internal/wallet/pool.go): the pool that `Next` goes through in turn.
--
-- Upstream (internal/upstream/client.go): `DiscoverEndpoints`, `pickEndpointExcluding` and, in
-- Upstream.Request, `Do` and `DoStream`. What the network answers and what `rand.Intn` draws in
-- each round are arguments. The loops count down the rounds that are left, as the source does.
--
-- Quality (internal/quality/middleware.go): the counters of `Wrap` as a step relation on the
-- requests that are served at the same time, one step for each atomic operation, and
-- `Stats`, whose loads may meet different states.
--
-- Ner, Config (internal/sanitize/ner/ner.go, internal/config/config.go): the sidecar's spans, and
-- the wallets of the environment; Config.Settings has `Load` with the other settings.
--
-- Signer (internal/signer/signer.go): `Sign` at a given time. Signer.Nonce has `generateRFC6979K` and
-- `rfc6979Sign`, over SHA-256, HMAC and the curve as arguments. The search for `k` takes fuel, and it
-- is enough when one of so many rounds gives a number in range; each round draws once for each bit
-- of the order, and once more, at most. Upstream.Signed is the request that carries the signature.
--
-- Json: encoding/json as far as the code uses it, by the rules that its documentation gives: the
-- machine that checks the syntax, the cutting of a valid text into items and members, strings with
-- their escapes and surrogates, `Unmarshal` into maps of raw messages, lists, strings and the fields
-- of structs (where a key is met in any case and the last member wins), and `Marshal` with its keys
-- in order and its HTML escapes. A nil map is `none`, and so is an assignment to it, which panics.
--
-- Sanitize.Messages (internal/sanitize/sanitize.go): `RedactMessages`, from the bytes of the request
-- to the bytes that are sent.
--
-- ToolSim (internal/toolsim/toolsim.go): the whole file. ToolSim.Request has `RewriteRequest`,
-- ToolSim.Response has `ParseResponse` and `extractToolCalls`; the random bytes of the ids are an
-- argument. A panic is `none`.
--
-- Api (internal/api/handler.go): Api.Chat is `chatCompletions` with `nonStreamResponse`,
-- `streamResponse` and `toolSimResponse`, over the sanitizer, the upstream client, tool simulation
-- and the restoring reader; Api.Normalize is `normalizeMessageContent`, and Api.Response has the
-- replies, their errors and the header with the redactions. What the nodes answer may depend on the
-- payload. A status that has not three digits makes `WriteHeader` panic. Api.Models has `loadModels`
-- and `listModels`, and Upstream.Models `FetchModels`, for which the decoding of the body is an
-- argument.
--
-- Not modelled: the page at `/`, the hash functions and the curve of a signature, which come from a
-- cryptographic library, floating-point statistics, logging, HTTP transport, the start of the
-- server, the Python sidecar and the web page.
pub mod Api
pub mod Config
pub mod Json
pub mod LlmClassifier
pub mod Ner
pub mod Prelude
pub mod Quality
pub mod Sanitize
pub mod Signer
pub mod Tests
pub mod Text
pub mod ToolSim
pub mod Upstream
pub mod Wallet
