-- ===== src/Lib.antt =====
-- PageLode loads web pages, maps sites, finds endpoints and e-mail addresses. This library models
-- the core of its Go code and proves what the parts promise.
--
-- The parts and their files (paths from the repository's root):
--   pkg/fetch        Fetch.antt and below: the loading of one page. Page.antt has the data of
--                    page.go; Routes.antt and Clearances.antt the two expiring maps of routes.go
--                    and clearances.go, Routes/Restore.antt with the table of routes of
--                    internal/store/store.go; Classify.antt the verdict of classify.go; Service.antt the
--                    waterfall of orchestrator.go (Defs.antt its data, Stages.antt its stages);
--                    Limiter.antt the limiter of limit.go as a relation between interleaved steps.
--   pkg/batch        Batch.antt and below: a batch run over the job queue. Jobs.antt has the states
--                    of jobs.go; Options.antt, Gate.antt and Worker.antt the options, the limit per
--                    host and the two workers of batch.go; Writer.antt the goroutine of writer.go;
--                    Import.antt the import of import.go. The workers call the waterfall of
--                    pkg/fetch through an interface: their model takes its result, with the answers
--                    of the sink and of River, as `Answers`. The transaction of a hand-off is
--                    run step by step, and its effects are kept only with its commit.
--   pkg/emails       Emails.antt and below: the search for e-mail addresses. Types.antt has the
--                    requests and reports of types.go; Targets.antt the choice of pages of
--                    targets.go; Search.antt the state and the operations of search.go; Find.antt
--                    the loop of service.go. `Outside` is the limiter with the page loader of
--                    loader.go.
--   pkg/sitemap      Sitemap.antt and below: the map of a site. Types.antt has the requests and reports
--                    of types.go; Robots.antt and Urls.antt the rules, the scope and the patterns of
--                    urls.go; Run.antt the report of service.go and the operations on it; Shape.antt,
--                    Trie.antt and Templates.antt the shapes and templates of urlshape.go;
--                    Similarity.antt and Scripts.antt the code of similarity.go and scriptscan.go;
--                    Crawl.antt the crawler of crawl.go (Pages.antt what it makes of a page, Levels.antt
--                    its loops); Map.antt the function Map of service.go, which reads the site maps and
--                    then crawls. `Outside` is the limiter with the fetcher and the browser.
--   pkg/discovery    Discovery.antt and below: the report on the traffic of a page. Types.antt has the
--                    data of types.go; Schema.antt the fields of schema.go; Classifier.antt the score of
--                    classifier.go; Signals.antt and Protocol.antt the signals and protocols of
--                    signals.go; Parts.antt, Observe.antt and Analyze.antt the lists, the single request
--                    and the loop of analyze.go; View.antt what view.go hides.
--   Both searches share Url.antt: what they use of net/url, and the code that both have alike.
-- A function keeps the name of the Go function, in snake case; a part of a function that stands
-- alone here is named for what it decides, and its comment says where it comes from.
--
-- How the code is read. A Go string is a list of bytes. ToLower, ToUpper and EqualFold change ASCII
-- letters only. An int is a natural number, since none of the modelled ints falls below 0, but for the
-- scores of pkg/discovery, which are kept as what is added and what is taken off, and for the options
-- of a batch run, which are words of 64 bits with their sign and wrap. A Go map is an
-- association list; where Go's order of iteration is random, the list has one order. A method
-- returns the changed state next to its result. Time is a number of nanoseconds and stands still
-- between two calls of the outside. Errors that are only logged are left out, and so are mutexes: a
-- method that holds one is one step. What lies outside the repository is a parameter: net/url, HTML
-- and regular expression engines, the network, the browser service, the clock. ExtractHTML of
-- pkg/fetch/extract.go, which is a composition of such engines, is a parameter of the waterfall
-- too.
--
-- Loops are recursions on the lists they walk; decimal printing has one more unit of fuel than its
-- number. The loop of the e-mail search runs on fuel: a round takes a target off a queue that takes
-- in at most 1000 targets, so 1001 rounds are enough. Each round of site maps reads one or more, and 25
-- are read at most, so 26 rounds are enough; the batches of a level have one more unit than the level
-- has pages, and the collapse of a trie has its height. The concrete runs in the Tests files evaluate
-- the same definitions.
--
-- Not modelled: the HTTP client and the browser client (network), the command line, the HTTP API,
-- the database access of internal/store but for what it does to the table of routes, the progress display of pkg/batch, the page loader and the
-- text search of pkg/emails, the service and the HAR import of pkg/discovery, and the TypeScript
-- browser service.
pub mod Prelude
pub mod Batch
pub mod Discovery
pub mod Emails
pub mod Fetch
pub mod Sitemap
pub mod Url
