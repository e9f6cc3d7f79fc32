-- ===== src/Lib.antt =====
-- storageprims: provider-neutral object storage primitives (Rust).
--
-- The program has three layers that are modelled here. `storageprims-core` declares the contract:
-- error values, URIs, and the source-guarded reads, in which a selector (a native version or a
-- strong entity tag) is bound to one target and key, and every response carries a receipt.
-- `storageprims-ops` builds bounded inspection on it: previews and line operations that read
-- guarded byte ranges under a budget. `storageprims-s3` implements the contract over the AWS SDK.
--
-- Files, and the code that they model (paths from the repository's root):
--   Core/Error.antt    crates/storageprims-core/src/error.rs: the errors, `Result`
--   Core/Config.antt   crates/storageprims-core/src/config.rs: `sanitize_endpoint`
--   Core/Uri.antt      crates/storageprims-core/src/uri.rs: `StorageUri::parse`
--   Core/Source.antt   crates/storageprims-core/src/types.rs: `SourceSelector`,
--                      `GuardedReadSelection`, `ByteWindow`, `SourceReceipt`
--   Ops/Lines.antt     crates/storageprims-ops/src/lib.rs: `extract_first_complete_line`,
--                      `parse_lines`, `parse_lines_up_to`, `parse_tail_lines_bounded`
--   Ops/Count.antt     the same file: `count_lines_bounded`
--   Ops/Budget.antt    the same file: `InspectionBudget`, `InspectionLedger`
--   Ops/Receipt.antt   the same file: `validate_guarded_range_receipt`, the checks against a budget
--   Ops/Align.antt     the same file: line boundaries, `reject_binary_prefix`, `build_line_result`
--   Ops/Provider.antt  crates/storageprims-core/src/provider.rs and types.rs: guarded reads as an
--                      interface over a world; the clock and the timeouts of tokio; an action, which
--                      has the ledger and the world as its state and keeps both on an error
--   Ops/Read.antt      crates/storageprims-ops/src/lib.rs: `observe_and_bind`, `selected_size`,
--                      `guarded_range_bytes`, `line_probe`
--   Ops/Operations.antt  the same file: what the operations do with a selected source
--   Ops/Entry.antt     the same file: `head_lines`, `tail_lines`, `mid_lines`, `count_lines`,
--                      `preview_bytes`, `preview_bytes_selected`
--   S3/Keys.antt       crates/storageprims-s3/src/lib.rs: keys and prefixes under the root
--   S3/Pages.antt      the same file: `validate_list_page`, `validate_delimiter_list_page`
--   S3/Response.antt   the same file: `checked_receipt`, `parse_content_range`,
--                      `validate_full_get_response`
--   S3/Guarded.antt    the same file: `observe_source`, `guarded_head`, `guarded_get`,
--                      `guarded_get_range`, over any client of the SDK
--   S3/Errors.antt     the same file: `map_sdk_error`, `map_guarded_sdk_error`, `map_put_error`,
--                      `map_delimiter_list_error`, `parse_retry_after_value`
--   S3/Stream.antt     the same file: `DeclaredLengthRead`, `AsyncReadBody`, over any reader
-- Modules below these hold the proofs. Prelude.antt has what the components share, and
-- Prelude/Utf8.antt and Prelude/Decimal.antt the standard library's `from_utf8`, and the reading
-- and printing of a `u64`. Tests.antt runs the definitions.
--
-- A text is the list of its bytes, a duration its nanoseconds, an unsigned integer a natural number
-- with the checks and the saturation of the source written out. The offset sums of the line parsers
-- are not reduced: their operands lie within an object of at most 2^64 - 1 bytes. Loops over a
-- cursor run on fuel, one round for each byte; each round that continues moves the cursor by one
-- byte at least, so the fuel suffices, which the theorems on the loops include.
--
-- A provider is a record of steps of a world, and the runtime's clock and timeouts are two more. What
-- the theorems on the operations ask of them is named: `CompletesCalls`, that a call which ends
-- before its deadline is the call; `Serves`, the contract of guarded reads, that every successful
-- response to a selection is about one content; and `IsMeter`, that a meter counts one for each call
-- and the bytes that each read takes. Where the source panics, the result is `none`. The read loop runs on as many rounds as the body has bytes: each round adds one or fails.
-- An SDK error is what the mapping reads of it. The theorem on tails asks for receipts that
-- state the total size: without it `tail_lines` takes a last line with no ending for a cut one.
--
-- Not modelled: Debug and Display output, serde attributes, the AWS SDK and its I/O, and the C ABI.
pub mod Prelude
pub mod Core
pub mod Ops
pub mod S3
pub mod Tests
