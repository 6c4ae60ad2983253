-- ===== src/Lib.antt =====
-- EvalOps Lab: the job engine of the local workspace, the retrieval metrics, and the comparison
-- of runs. The paths below are those of the repository's Python package, src/evalops.
--
-- Models is the data of workspace/models.py, workspace/ingestion/models.py, models/runs.py and
-- workspace/application/runs.py. Storage is workspace/storage.py: the identifiers, the files of a
-- workspace root, the registry of workspaces (Storage/Workspaces reads it, Storage/Registry
-- changes it), the registered inputs (Storage/Inputs, Storage/Registration), the snapshots of
-- runs, the records of jobs, and the result and provenance of a run (Storage/Evidence).
-- Storage/Actions composes calls on the disk. The loop that draws a workspace identifier has fuel
-- for one draw more than there are workspaces. A file is what the JSON reader and the schema
-- validation make of it; a write is atomic, and the device may refuse it. `Disk` is the state, a
-- call takes it and returns the result or the exception with the disk that it leaves.
-- `os.replace` and `os.link` are relied on to be atomic, and temporary files are not part of the
-- state. `update_job_record` is split into its guards (`next_record`, with the time as an
-- argument) and the write; Storage/CompareAndSet states on its own which updates are to be taken,
-- and Storage/View the map of jobs that they change. Jobs is workspace/jobs: the states and the
-- records (models.py), and queue.py in Jobs/Queue (the queue and its callers) and Jobs/Worker
-- (the loop of the worker). Other threads and the executor are arguments, functions from disk to
-- disk that run between a read and the update that follows it. The loops of eight attempts count
-- the attempts left. A turn of the worker takes an item, forgets its identifier and runs the job
-- in one step. Retrieval is evaluators/retrieval/metrics.py, Regression is
-- regression/comparison.py, Failures is failures/taxonomy.py, and Comparison is
-- workspace/comparison. Numbers are a record `Float` of the operations that the code calls, and
-- `FloatLaws` says what is relied on of finite floats; fractions of naturals are an instance.
-- Datasets is datasets/io.py, with the parser of a line as an argument. Runs is
-- workspace/application/runs.py and runners/retrieval.py: Runs/Pairing checks two inputs,
-- Runs/Creation creates, submits and retries runs, Runs/Execution takes a job through its phases;
-- the JSON of results and the digest are `Codec`, an argument. Exponential, logarithm and the
-- printing of an int are arguments; they are total, so that a label of 1024 or more, whose gain
-- is too large for a float, has no exception in the model, nor have numbers that are not finite.
-- Hallucination is evaluators/hallucination/metrics.py and comparison.py, and Pilot is
-- pilot/rate_limit.py and pilot/execution.py: the limits, the requests for one example
-- (Pilot/Requests, whose loop has fuel for the retries, the regenerations and one more) and the
-- loops over providers and examples (Pilot/Study), with readings of the clock and answers of the
-- providers as arguments. Common holds the Boolean tests, lists, dicts, results and sorting that
-- the parts share, Tests the theorems at concrete inputs.
--
-- The clients of the store are Jobs and Runs, which update records by `update_job_record` only.
-- The executor of the worker is `execute_job` of Runs, which calls Datasets and Retrieval and
-- writes the evidence; Comparison takes the per-query results of Retrieval, and
-- Comparison/Service (workspace/application/comparisons.py, with workspace/comparison/policy.py)
-- reads the evidence of two runs and builds the record of a comparison, Comparison/Archive is how
-- workspace/storage.py creates, reads and lists the files of such a record, and
-- Comparison/Creation is the whole of `create_comparison`. One reading of the clock serves all
-- updates of a call, since times are only stored.
--
-- Ingestion is workspace/ingestion: Jsonl validates an input with the readers of Datasets, Csv
-- makes canonical JSONL of a CSV file, Service registers inputs in the store, from where the runs
-- read them. Hallucination/Spans and Hallucination/Thresholds are
-- evaluators/hallucination/spans.py and thresholds.py, Pilot/Sampling and Pilot/Provenance are
-- pilot/sampling.py and provenance.py. The CSV reader, JSON, digests, the text of paths and the
-- pseudo-random numbers are arguments, with the laws that are relied on stated where they are.
--
-- Not modelled: the text of JSON files and of messages to a user, real threads and waiting, the
-- manifests of exports in the store, comparing detectors out of JSON, the analysis of a pilot,
-- the listing of run snapshots, BM25 retrieval, the readiness gates of a pilot, the hallucination
-- detectors, the LLM judge, providers, other data sets, exports, the HTTP interface, the command
-- line, scripts and the web applications. Most of them are input and output around these parts.
pub mod Common
pub mod Models
pub mod Jobs
pub mod Storage
pub mod Regression
pub mod Failures
pub mod Retrieval
pub mod Comparison
pub mod Hallucination
pub mod Pilot
pub mod Datasets
pub mod Ingestion
pub mod Runs
pub mod Tests
