-- ===== src/Lib.antt =====
-- library-olm: bundles, catalogs and resolution of operators, as far as it is modelled here.
--
-- The library reads bundles (bundle/), serves catalogs of them (catalog/) and resolves a package to
-- the bundles that meet a caller's criteria (resolver/). Registry+v1 bundles are validated and
-- rendered to Kubernetes manifests.
--
--   Prelude    names, lists, orders, maps and sets of strings, errors: Go's standard library as used
--   Bundle     bundle/v1: releases, versions with releases, their order and printing
--   Catalog    catalog/v1/catalog.go: the interfaces that resolution is written against, and store.go:
--              Writer, Importer and the options of Set; Kept says what an importer keeps that
--              changes the content by the methods of its writer only
--   Resolver   resolver/v1/resolve.go: Select, Walk, Collect, Arrange and Resolve are the functions
--              selectPackage, selectGraphs, collectBundles, filterByConstraint with sortBundles, and
--              Resolve; the other modules hold the theorems on them
--   Registry   bundle/registry/v1/internal/bundle/registryv1.go, with the fields of the CSV, its
--              deployments and webhooks that the code reads
--   Config     the same file: the schema of a bundle's configuration, which RegistryV1.GetConfigSchema
--              builds from the install modes; the base schema, decoded from a file, is an argument;
--              Formats is of bundle/registry/v1/internal/config/config.go
--   Validators bundle/registry/v1/internal/render/registryv1/validators: the checks, one function
--              for each, and BundleValidator
--   Generators bundle/registry/v1/internal/render: the generators, one function for each, on the
--              explicit GeneratorContext, and Render, which runs the checks and then the generators
--   Sqlite     catalog/v1/sqlite: Tables has the rows; Keys, Writer and Deletion are writer.go, Store
--              and Select are sqlite.go; Joins, Graphs and Queries are query.go, Catalogs gives them
--              the interfaces of resolution, and Migrations is OpenStore with content.go and
--              metadata.go. A database is the record of its tables, and a statement the function of
--              them that SQLite documents
--   Fbc        catalog/v1/fbc: Ingest and Staging are ingest.go and db.go, Pipeline the walk and the
--              batch writer as steps of either, Accessor, Handler and Importer the rest of an import;
--              Calls records what the handler writes
--   Helm       bundle/helm/v1/internal: Hermetic is hermetic/hermetic.go, with the names of sprig's
--              functions as an argument, and Metadata is validate/metadata.go
--   Samples    concrete packages for the tests
--
-- Functions keep the source's names in antt's spelling: groupByPriority is group_by_priority. A Go
-- function that returns an error returns a Result, whose error is a value of a data type instead of
-- a message; a panic is none or an error of its own. Loops are functions by recursion on the list
-- that they range over, and two need fuel: strconv.Itoa, which has ten digits for an int32, and the
-- query for the graphs below a graph, which has a round for every id that was given. A map is the
-- list of its entries and a set of strings the list of its members; where the code lists a set in
-- no fixed order, the order is a parameter. slices.SortFunc is an insertion sort, and the theorems
-- say of it only what any sort has.
--
-- Parameters stand for github.com/blang/semver (SemVer), github.com/Masterminds/semver
-- (Masterminds), the implementations of catalogs (Catalogs), what is used of the Kubernetes and
-- operator-framework packages (Kube), parsing and marshalling in the store and the order in which
-- SQLite lists rows that a query does not order (Parsers), the blobs of file-based catalogs (Declcfg)
-- and label selectors (Selectors). The hypotheses on them are IsPrecedence, IsPrinted, IsDeepEqual and
-- IsSelectors. Importers are hypotheses of Set as IsImporter, which holds of every function that has
-- no other way to the content than the methods of its writer, the import of file-based catalogs among
-- them.
--
-- Not modelled: the reading of bundles from files, connections to databases and their failures,
-- the rendering of Helm charts, the validation of a configuration against its schema, the two
-- certificate providers, contexts, and the aliasing of slices between a bundle and the objects
-- rendered from it.
pub mod Prelude
pub mod Bundle
pub mod Config
pub mod Catalog
pub mod Resolver
pub mod Registry
pub mod Validators
pub mod Generators
pub mod Sqlite
pub mod Fbc
pub mod Helm
pub mod Samples
