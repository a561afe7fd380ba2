-- ===== src/Lib.antt =====
-- A verification library of the tax API (a NestJS service that emits Chilean electronic tax documents,
-- DTE, for integrators): its folios, the totals of a document, the life of an integration request,
-- the worker that emits the documents, the daily report of folios (RCOF), the access of integrators,
-- the loading of folio ranges (CAF), the exchange with the tax authority (SII), the signature and the
-- visual identity of a tenant, and the links to its documents.
--
-- An integrator signs its calls with a credential; the guard admits them and the API stores a request,
-- which answers at once. A worker claims the requests that are due, reserves a folio from the tenant's
-- CAF ranges, prepares and signs a document, marks the request, sends the envelope to the SII, and
-- moves the request's public state, each move with an entry of the history and, where it is to be
-- notified, an event in the outbox. A failure before the mark is retried later; one after it is left to
-- an operator.
--
-- Parts and sources:
-- - Common: Boolean tests, lists, results, texts as codes; shared by all.
-- - Folio (src/infrastructure/framework/sii/tenant-config.service.ts): reserve_folio_atomic is
--   reserveFolioAtomic, register_caf the mutation of uploadCaf, covering_caf the search of
--   getDecryptedCafForFolio. Folio/Ranges says when ranges fit together, Folio/Reserve and
--   Folio/Register treat one operation, Folio/History sequences of them.
-- - Request (src/application/integrations/integration-state.service.ts): apply_state is applyState on
--   PostgreSQL with persistState, schedule_retry is scheduleRetry. Request/Transitions has the diagram,
--   Request/Persist the history and the outbox, Request/Retry the attempts.
-- - Worker: the world of one request's worker, with a list of faults that the environment chooses:
--   each action of the database or the network first runs, throws, or lets the process die. A
--   transaction that does not return is rolled back. Worker/Rules has the rules for postconditions.
-- - Emit (src/application/dte/emit-dte.use-case.ts): prepare and transmit. Emit/Frame says what they
--   leave alone.
-- - Processor (src/application/integrations/integration-processor.service.ts and
--   integration-queue.claimer.ts): process and its parts under the names of the source, serve for one
--   pass over a request. Processor/Fence and its children follow transmissionStartedAt through them.
-- - Guard (src/infrastructure/guards/integration-hmac.guard.ts and
--   src/infrastructure/framework/integrations/integration-signature.util.ts): can_activate is
--   canActivate. Guard/Access, Guard/Replay and Guard/Limit treat admission, nonces and the rate limit.
-- - Credentials (src/application/integrations/integration-credentials.use-case.ts): create, rotate and
--   revoke. Credentials/Lockout and Credentials/Permissions treat what they keep.
-- - Intake (src/application/integrations/integration-request.service.ts): enqueue, with what its first
--   reads saw and the table when it inserts. Intake/Idempotence treats repeated and racing calls.
--   Intake/Payload is validatePayloadAndTotals, Intake/Payload/Accepted what it accepts, over
--   Intake/Payload/Conditions for its guards and Intake/Payload/Declared for the declared totals.
-- - Totals (src/infrastructure/framework/sii/discount.engine.ts and calculateTotals of dte-xml.engine.ts
--   beside it): the functions under the names of the source, over a record Doubles of the operations on
--   numbers that are not whole. Totals/Rounding has the law that is asked of them, for amounts below
--   2^36 and percentages of at most two decimals, where the errors of two operations on doubles stay
--   below the distance to the next half; Totals/Lines says what share a line has, Totals/Sums adds them
--   up, Totals/Document treats the totals, Totals/Gross prices that include IVA, Totals/Order the order of the lines,
--   Totals/Retention the retentions.
-- - Rcof (src/application/integrations/generate-rcof.use-case.ts): Rcof/Day is consolidateDay with
--   extractXmlValue and folioRanges; Rcof/Report is execute, transmit and pollStatus, where an Exchange
--   says what the outside answers. Rcof/Day/Ranges and Rcof/Day/Counts treat the summaries,
--   Rcof/Report/Once the envelopes, Rcof/Report/Saved what is saved before them.
-- - Webhook (src/application/integrations/integration-webhook.service.ts): the deliveries of an event;
--   deliver is one pass of deliverDue over a delivery, deliver_all and posts follow it through a list of
--   passes that a worker finishes, with updates that run or throw. Webhook/Attempts counts the POSTs, Webhook/Snippet treats
--   readResponseSnippet. Webhook/Endpoints is registerEndpoint, deactivateEndpoint and the checks of
--   their URLs, over the parsers and the resolver; Webhook/Endpoints/Safety says what is let through.
-- - Cron (src/infrastructure/guards/cron-hmac.guard.ts and
--   src/infrastructure/framework/postgres/cron-nonce.store.ts): can_activate is canActivate of the cron
--   guard, consume_nonce is tryConsume.
-- - Polling (the polls of src/application/integrations/integration-processor.service.ts and
--   src/application/dte/query-dte-status.use-case.ts): poll_request and poll_rcof_request are the bodies
--   of the loops of pollSubmitted and pollRcofSubmitted, requests_of_tenant is requestsByTenant for one
--   tenant. Polling/Final treats an answer that is final, Polling/Trail any polls, Polling/Batch the
--   requests taken on.
-- - Repository (src/infrastructure/framework/postgres/postgres-generic-repository.ts and
--   memory/memory-generic-repository.ts): tenant_call and memory_call are the operations of the two,
--   perform the check of the context before them. Repository/Rows has what they do to the rows of one
--   tenant, Repository/Tenancy compares them.
-- - Xml: the regular expressions by which the services read XML, on codes; Xml/Elements says what a text
--   without markup, or other elements, do to them, Xml/Escape treats entities.
-- - Caf (src/infrastructure/framework/sii/caf.service.ts): parse, validate_surgical_rules,
--   assert_folio_allowed, extract_private_key_pem and create_simulation_caf under the names of the
--   source. Caf/Numerals treats decimal numerals, Caf/Tags what is found in the CAF of the simulation,
--   Caf/Chains chains of tests, Caf/Simulation reads that CAF back.
-- - Client (src/infrastructure/framework/sii/sii-soap.client.ts, real mode): fetch_with_retry is
--   fetchWithRetry with its limit of three, over a function that says what becomes of each attempt;
--   upload_real_dte and upload_real_rcof are the uploads, with the form that they post. Client/Queries has
--   the other calls, Client/Retry and Client/Upload the attempts.
-- - Preflight (src/infrastructure/framework/sii/sii-xsd.validator.ts and the Totales of
--   src/infrastructure/framework/sii/dte-xml.engine.ts): validate_surgical_rules is validateSurgicalRules
--   with its list of errors, totals_xml what buildDte writes. Preflight/Written and
--   Preflight/Blocks read that text, Preflight/Balance compares the two.
--   Preflight/Documents has the rules for the other documents, and Preflight/Agreement compares the two
--   implementations of those for a CAF.
-- - Loading: upload_caf is uploadCaf of src/infrastructure/framework/sii/tenant-config.service.ts, over Caf,
--   Preflight and Folio, with the row's numbers as JavaScript has them, whole or not; Loading/Stored
--   relates the registration over these to the one of Folio. Loading/Simulated loads the CAF of the simulation, Loading/Loaded says what any
--   CAF that is loaded has passed.
-- - Branding (src/infrastructure/framework/sii/invoice-branding.service.ts): update and ensure_active, with
--   the rows that others insert in each of the three attempts and a last write that may fail. Branding/Versions treats the versions,
--   Branding/Accepted the checks.
-- - Artifact (src/application/integrations/integration-artifacts.service.ts and
--   src/controllers/artifacts.controller.ts): the signed links. Artifact/Links treats them.
-- - Settings (src/infrastructure/framework/sii/tenant-config.service.ts): save_signature, status_of and
--   get_decrypted_signature with the cache of a process. Settings/Expiry treats the end of the validity.
-- - Rut (src/infrastructure/decorators/is-chilean-rut.decorator.ts): validate_rut is validateRut.
-- - Tests: concrete data and runs.
--
-- Numbers are naturals; times are milliseconds. Loops are structural recursions on lists or texts, and a
-- run of the worker is a list of passes, but for two with fuel: the attempts of an exchange, whose limit
-- of three is its fuel, and the digits of a numeral, whose fuel is the number plus one. That both are
-- enough is proved (Client/Retry, Caf/Numerals). A text's characters are compared by their codes.
--
-- Not modelled: the XML of a document but for its Totales, and its signature; in the worker, which counts
-- uploads, the exchange behind an upload is an action that runs or fails (Client has its POSTs); xmllint
-- and the rules for a Libro de Compra y Venta; the stand-in for the SII, the PDF and the certificates,
-- which libraries read; the hashes, HMAC, RSA and AES of Node, base64, and sharp, which are parameters;
-- the token and the signature of the RCOF, which are part of its Exchange; logs, metrics and audit
-- entries; concurrent workers on one row, which the row's lock of the claim and of the transactions
-- keeps apart, except where a read comes before other calls' writes and the model lets it see any
-- earlier rows (the nonces of the guard, the requests of the intake, the versions of a visual identity);
-- the in-memory store of the unit tests of the state service; the payloads of webhook events and a
-- worker that dies between a POST and its record; the requests that ask for an RCOF, in processRcof.
pub mod Common
pub mod Tests
pub mod Folio
pub mod Request
pub mod Worker
pub mod Emit
pub mod Processor
pub mod Guard
pub mod Credentials
pub mod Intake
pub mod Webhook
pub mod Rut
pub mod Totals
pub mod Rcof
pub mod Repository
pub mod Polling
pub mod Cron
pub mod Caf
pub mod Client
pub mod Settings
pub mod Artifact
pub mod Branding
pub mod Preflight
pub mod Loading
pub mod Xml
