-- ===== src/Lib.antt =====
-- yomotsusaka: a vault that redacts documents for agents and restores the private values only
-- behind an audited, policy-checked boundary.
--
-- A document goes through the pipeline (src/yomotsusaka/pipeline.py, `Pipeline`): its id is
-- checked, the redactor (redactor.py, `Redactor`) replaces spans by keys, the validator
-- (validator.py, `Validator`) checks the manifest, and the vault (commit.py and
-- restoration_api.py, `Vault`) writes the manifest and the private dictionary. Agents see
-- documents through the boundary (boundary.py, `Boundary`): `Boundary/Locator` builds and parses
-- locators, `Boundary/Resolver` resolves them and answers process, inspect and status requests,
-- `Boundary/Restoration` gives back private values behind the scope gate, the policy table
-- (policy.py, `Policy`) and the audit log. The vault of a call is bound to a tenant (tenant.py,
-- `Tenant`). Free text is cleaned by the scrubber (scrubber.py, `Scrubber`). The pods that run a
-- model are created and deleted by the managed lifecycle (runpod_lifecycle.py, `Lifecycle`). Spans
-- come from the caller or from a proposer (span_proposer.py, `SpanProposer`): rules, or a backend
-- whose answer is parsed. Manifests are found again by the search gateway (search_gateway.py):
-- `QueryResolver` translates raw values in a query to keys, `SearchGateway` holds the index, the
-- search and the boundary's search requests, `Snapshot` the index file. Template jobs run behind
-- the dispatcher of the execution gateway (`execute_request` of boundary.py, `Execution`), which
-- records every call (audit.py, `Audit`, read back by `Audit/Reader`); the two registered
-- templates (templates.py, `Templates`) commit their artifacts through the pipeline. The facade
-- (facade.py, `Facade`) offers the boundary to an ordinary agent. The batch runner
-- (batch_runner.py, `BatchRunner`) sends the files of a directory through the boundary into the
-- vault and the index, as a batch of the queue (batch_queue.py, `BatchQueue`). `Schemas` and
-- `Charset` hold the data and the character set that the parts share, `Prelude` the shared
-- helpers, `Examples` concrete runs.
--
-- How the model stands for the code. A `str` is the list of its code points. A raised exception is
-- the `err` of a `Result`, with what the call has written to the disk beside it. A disk is a
-- function from paths to file contents with the set of paths at which a write, or the making of a
-- directory, raises `OSError`. The audit log of a restoration request is a trace of records and
-- kernel calls, newest first, with a list that tells which of the coming writes fail; an
-- identifier of a record is given from outside. A regular expression with a literal pattern is a
-- matcher written out for that pattern; patterns that come from a policy file stand behind the
-- parameter `fullmatch`. SHA-256 is the parameter `hexdigest`, JSON the parameter `codec` with the
-- hypothesis `IsLawful` that reading gives back what was written, `Path.resolve` the parameter
-- `resolve`, and the HTTP client, with RunPod's service behind it, the parameter `answer`, a
-- function of everything that was sent before. What `finditer`, `json.loads`, `yaml.safe_load`, a
-- backend, `str.lower`, `repr` and the system's file operations do is a parameter where a part
-- calls them. A dispatcher's log is the disk, the events of the call, newest first, and the faults
-- of the coming appends.
--
-- Bounds. The loop of `translate` runs on fuel, the length of the query: each step takes at least
-- one character, and the theorem says that it always ends with a result. All other loops over
-- texts and lists are structural recursion. The snapshot has the source's two attempts. The loops
-- of the lifecycle count down the source's own numbers of attempts, sixty probes and two removals.
--
-- Not modelled: the parsing of YAML, environment variables, time stamps, generated identifiers,
-- log output and the wording of errors; type tests on arguments, since the model is typed; the
-- mock and attach modes of the lifecycle; the default patterns of the rules; the walk over a
-- directory, of which the batch runner gets the list of regular files. The registry of the
-- boundary, the operational taxonomy and reports, the inference backends, the command line and the
-- evaluation have no model yet.
pub mod Prelude
pub mod Schemas
pub mod Charset
pub mod Vault
pub mod Redactor
pub mod Validator
pub mod Scrubber
pub mod Pipeline
pub mod Policy
pub mod Tenant
pub mod Boundary
pub mod Lifecycle
pub mod BatchQueue
pub mod Examples
pub mod SpanProposer
pub mod QueryResolver
pub mod SearchGateway
pub mod Snapshot
pub mod Audit
pub mod Execution
pub mod BatchRunner
pub mod Templates
pub mod Facade
