-- ===== src/Lib.antt =====
-- BuildStream builds and integrates software: it loads the declaration of an element and of all
-- that it depends on from YAML, composes their configuration, plans the order of the builds, and
-- runs tracking, fetching, pulling, building and pushing as jobs in child processes.
--
-- The parts, and how they interact. The loader (buildstream/_loader.py) reads the elements, chooses
-- the variants and rejects circular dependencies; the dictionaries of the elements are composed by
-- buildstream/_yaml.py. The pipeline (buildstream/_pipeline.py) walks the graph of elements
-- (buildstream/element.py) and plans the builds; the plan is given to the first queue of the
-- scheduler (buildstream/_scheduler), which passes the elements from queue to queue. The push queue
-- sends artifacts to a remote repository (buildstream/_artifactcache/pushreceive.py).
--
-- The modules, each beside the code that it follows:
--   Prelude    the shared helpers: tests, lists, counts, dictionaries as association lists
--   Yaml       buildstream/_yaml.py. Node has the values; Composite has composite_dict; Get has
--              node_get
--   Element    buildstream/element.py. Graph has the dependency lists; Dependencies has
--              Element.dependencies and Element.search; Keys has _get_cache_key;
--              States has what an element and its sources (buildstream/source.py) remember
--   Loader     buildstream/_loader.py. LoadElement has Dependency, Variant, LoadElement and
--              deps_for_variant; Parse makes a LoadElement of a parsed file; Files has load_file;
--              Variants has the choice of variants; Circular has check_circular_deps;
--              ProjectVariant has resolve_project_variant
--   Pipeline   buildstream/_pipeline.py. Planner has the class Planner;
--              Removal has remove_elements; Commands has deps_elements and how track, fetch and
--              build start a session
--   Scheduler  buildstream/_scheduler. Tokens and Session have scheduler.py, Queue has queue.py,
--              Kinds has the five queue classes, Job has the parent's side of job.py, Elements has
--              what the queues ask of an element, and Events has what happens to a running session
--   Artifacts  buildstream/_artifactcache. Cache has the class ArtifactCache of artifactcache.py;
--              of pushreceive.py, Message has the messages and their bytes, Receiver has
--              OSTreeReceiver, and Pusher has OSTreePusher
-- The other files of a part prove; those named Examples test the definitions and apply the theorems.
--
-- How the code corresponds. Objects are compared by identity in the code, so an element is known by
-- its unique id, a number; an element of the loader is loaded once, under its filename, and is known
-- by that. State is passed on explicitly: an operation takes the records it changes
-- and returns them changed. Dictionaries and sets are lists in the order of insertion. The asyncio
-- loop is the field `running` and the relation Scheduler.Events.Step, whose steps are the callbacks
-- of the loop; Reach is any sequence of them. What the queues ask of an element is the interface
-- ElementOps over an arbitrary world, which other steps may change at will. Python's sorted() is
-- an insertion that keeps equal elements in order. Times are whole numbers. A failed assertion and
-- a missing key are results. In Receiver and Pusher a stream is a list of packets, the messages and
-- the tar stream of objects; the functions on bytes are in Message.
--
-- Fuel bounds how deep the recursion goes, or the rounds of a loop. Enough is: for plan_element,
-- dependencies and _get_cache_key more than the rank of the element in an acyclic graph; for
-- check_circular_deps more than the number of elements, and for resolve_project_variant what was
-- enough for that check; for load_file more than the number of files; for the choice of variants
-- more than one more than the most dependencies of an element, for each element; for needed_commits
-- more than the number of commits; for remove_elements three rounds more than there are candidates
-- and elements of the tree. A walk of `dependencies` is cut off where its fuel ends.
--
-- Parameters. The parser of YAML gives the files (a file is parsed or is not there), and str() and
-- strip() are the record Strings; the dictionaries it makes ignore the deletion of a missing key,
-- which the code relies on. OSTree is the record Ostree with the laws IsOstree of a repository, and
-- for a push whether it has a commit and whether it sets a ref. The hash of an element is a field
-- of KeySources.
--
-- Not modelled: the child processes, signals and processes of the operating system, the messages to
-- the frontend, reading and writing files, the provenance that _yaml.py keeps for error messages,
-- the plugins, the sandbox, OSTree and GLib, which are parameters of Artifacts. Integers and
-- decimal numbers of a YAML file are told apart, their values are opaque.
mod Prelude
pub mod Yaml
pub mod Element
pub mod Scheduler
pub mod Loader
pub mod Pipeline
pub mod Artifacts
