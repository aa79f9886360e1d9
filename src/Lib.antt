-- ===== src/Lib.antt =====
-- Berlue checks the answer of a language model claim by claim. A pipeline extracts the claims, a RAG
-- branch judges each of them against documents (FEVER), a SelfCheck branch measures how much samples
-- of the model diverge, and a fusion gives one verdict for each claim. Around it stand the service,
-- with a cache of predictions, and an offline evaluation, whose results are kept in a store.
--
-- What is modelled, file by file:
-- - Base: what the modules share. Exceptions are values (`Result`, `Error`); Python's floats are the
--   parameter `Double`, with the laws of order that rounding keeps where no NaN arises (`IsOrdered`,
--   for the lemmas on monotony), and thousandths as an instance that meets them.
-- - Core/Schemas: berlue/core/schemas.py.
-- - Pipeline/Fusion: berlue/pipeline/fusion.py, with the parameters `FUSION_*` of berlue/params.py as
--   a record. A rule of the code (R1 to R5) is a function. The dictionaries that `do_fusion` builds
--   are lookups in which the last entry of a key wins. Its children: Rules (what each rule decides),
--   Outcome (what `do_fusion` returns), Beliefs (monotony and bounds of the scores).
-- - Pipeline/Parallel: `map_parallele` of berlue/pipeline/parallel.py on a pool of threads, whose
--   scheduling is a list of moves (a task starts, a task ends). Pipeline/Extraction:
--   berlue/pipeline/extraction.py. Pipeline/HurluBerlu: the stages of berlue/pipeline/hurlu_berlu.py,
--   composed of the modules below and of the fusion.
-- - Rag/Answer, Rag/Retriever: berlue/rag/retriever.py, the reading of the model's answer, and the
--   retrieval and the verdicts.
-- - Llm/Client: berlue/llm/client.py, with the state of the client that threads share and the token
--   that is renewed. Selfcheck/Branch: branch.py, sampler.py and the divergence of scorer.py in
--   berlue/selfcheck. Selfcheck/Loading: the double check by which scorer.py loads its model, as the
--   steps of any number of threads in any order, among them loads that raise.
-- - Evaluation/Signals: berlue/evaluation/signals.py. Evaluation/Metrics:
--   berlue/evaluation/metrics.py. Evaluation/BerluePipeline: berlue/evaluation/berlue_pipeline.py.
-- - Evaluation/Data: the split into training and tests of berlue/evaluation/data.py.
-- - Evaluation/Sql: the statements that are sent to sqlite3, over rows by column name. A table is a
--   list of rows in the order of insertion; a UNIQUE constraint is the list of its columns.
-- - Evaluation/Store: `LocalResultStore` of berlue/evaluation/result_store.py. Tables holds the
--   constraints, Verdicts and Generated the predictions of modes 1 and 2, Matrices the confusion
--   matrices, PredictCache the cache of the service, Purge the deletions. Interface is what the
--   evaluation asks of a store, local or remote, with its laws; Local fills it.
-- - Evaluation/Gcp: `GcpResultStore` of berlue/evaluation/gcp_result_store.py. Rest is the client of
--   Firestore, whose token is renewed by a second request after a 401; Ids the ids of documents;
--   Registry the buffered counts of the scopes; Results the methods of both modes and the cache;
--   BigQuery and Matrices the statements on matrices; Purge the deletions. Firestore is the law
--   `IsFirestore` of its REST calls: it may refuse a token at any time, answers an accepted call, and
--   takes at most 500 names in one commit. Codec, Served, Documents, Slices and Deletions hold what
--   each operation does to the documents; Demo is a server that meets the laws.
-- - Evaluation/RunEval: mode 1 of berlue/evaluation/run_eval.py, over any store that meets the laws
--   of Interface. A run passes on the store and its counters; an exception ends it, and the `finally`
--   still flushes the registry. Ranges and Grouping are two of its helpers, for reports and for mode 2.
--   Generated is mode 2: each of its three stages is a pool of threads (Stage) whose reads and writes
--   of the store come in any order, given as a list of turns. Its store is an interface with laws,
--   which Generated/Local fills with `LocalResultStore`. GeneratedMatrix builds its matrices.
-- - Api/Schemas, Api/PredictCache, Api/Service: berlue/api/schemas.py, predict_cache.py, service.py.
--
-- Parameters stand for what is not the program's: SHA-256, the clock, JSON, Python's tables of
-- characters, Google's credentials, the index of FAISS, and the models that the pipeline calls. The
-- text of `debug` that the service builds is a parameter too, since it is only handed on. The puts of
-- the local store do not raise in this model, while the store of the service and the one on Google
-- Cloud may raise at every call; an entry that the service is given holds the result of the
-- validation of its payload, which may raise as well.
--
-- Loops are structural recursion on a list or on a number that the source counts down. The slices of
-- a deletion have the number of names as fuel, since each holds one name at least. Inside one call of
-- the pipeline the client's state is that of its start.
--
-- Not modelled: the waiting for `registry_lock` in mode 2, under which the count and the flush are one
-- step of a thread; what a statement does in BigQuery, the failures of Firestore other than a refused
-- token, the loop of the baseline in mode 2 of the evaluation, the judge, the report of coverage, the
-- journal and the text of a trace, the routes, the command lines, the interface, the training of the
-- baseline and the scripts, which are I/O or are left out.
pub mod Base
pub mod Core
pub mod Pipeline
pub mod Rag
pub mod Llm
pub mod Selfcheck
pub mod Evaluation
pub mod Api
